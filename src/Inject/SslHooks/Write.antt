-- ===== src/Inject/SslHooks/Write.antt =====
-- fish_11_inject/src/hook_ssl.rs: SSL_write behind the detour that install_ssl_hooks sets up.
use fish.Common.{
  ℕ, zero, suc, ◌==◌, ◌≡◌, refl, ap, sym, ◌∙◌, arith, Bool, false, ◌||◌, [], Option, none, some,
  if◌then◌else◌, negsuc, Bool-cases, inl, inr, Option-cases,
}
use fish.Inject.Engines.{InjectEngines}
use fish.Inject.SslMapping.{get_socket}
use fish.Inject.SslHooks.{
  SslState, after_write, Written, WriteResult, is_bad_buffer, hooked_ssl_write, installed_ssl_write,
}

-- A detour whose original does not return does not return either.
hooked_ssl_write-stuck :
    (original_fn : SslState → WriteResult) (ssl : ℕ) (buf : Written) (finished : Option Bool)
    (engines : InjectEngines) (state : SslState)
    → (ssl == 0) ≡ false
    → is_bad_buffer buf ≡ false
    → ((s : SslState) → original_fn s ≡ none)
    → hooked_ssl_write (some original_fn) ssl buf finished engines state ≡ none
unfolding hooked_ssl_write
hooked_ssl_write-stuck original_fn ssl buf finished engines state given good stuck =
    elim (Option-cases (get_socket ssl state.mappings)) [
      | inl e ↦ rw (given, good, e, hooked_ssl_write) (stuck state)
      | inr (socket_id, e) ↦
          rw (given, good, e, hooked_ssl_write) (ap (after_write ssl finished engines _) (stuck _))
    ]

never_returns :
    (n ssl : ℕ) (buf : Written) (finished : Option Bool) (engines : InjectEngines)
    (state : SslState)
    → (ssl == 0) ≡ false
    → is_bad_buffer buf ≡ false
    → installed_ssl_write n ssl buf finished engines state ≡ none
unfolding installed_ssl_write
never_returns zero ssl buf finished engines state given good = refl
never_returns (suc n) ssl buf finished engines state given good =
    hooked_ssl_write-stuck (installed_ssl_write n ssl buf finished engines) ssl buf finished engines
      state given good (λ s. never_returns n ssl buf finished engines s given good)

-- SSL_write returns only for a null context, or a null pointer with a positive length, and then -1 at
-- once: for any other call, whatever contexts are associated with sockets, the detour goes on to call
-- itself, so that it has not returned after any number of calls inside one another.
pub installed_ssl_write_lem :
    (n ssl : ℕ) (buf : Written) (finished : Option Bool) (engines : InjectEngines)
    (state : SslState)
    → installed_ssl_write (suc n) ssl buf finished engines state
      ≡ (if (ssl == 0) || is_bad_buffer buf then some (negsuc 0, ([], state)) else none)
unfolding installed_ssl_write hooked_ssl_write
installed_ssl_write_lem n ssl buf finished engines state = elim (Bool-cases (ssl == 0)) [
  | inl null ↦ rw (null) refl
  | inr given ↦ elim (Bool-cases (is_bad_buffer buf)) [
    | inl bad ↦ rw (given, bad) refl
    | inr good ↦
        (let called : ((ssl == 0) || is_bad_buffer buf) ≡ false = ground (arith, given, good) in
          never_returns (suc n) ssl buf finished engines state given good
          ∙ ap (λ b. if b then some (negsuc 0, ([], state)) else none) (sym called))
  ]
]
