-- ===== src/SignIn/Trusted.antt =====
-- What a sign-in starts.
use mathlib.Core.Path.{subst}
use limit_halo.Prelude.{
  String, Bool, true, ◌&&◌, ◌||◌, not, Option, none, some, List, [], ◌∷◌, ◌≡◌, ◌⊎◌, inl, inr, refl,
  sym, if◌then◌else◌, if_holds, both_true, str_eq, eq_iff, mem,
}
use limit_halo.Prelude.Result.{
  Result, ok, err, runtime_error, raise_if, ◌>>=◌, ◌>>◌, bind_returned, then_returned,
}
use limit_halo.Discovery.Windows.{Windows}
use limit_halo.Discovery.Select.{CodexCandidate}
use limit_halo.Discovery.Search.{verify_candidate_unchanged}
use limit_halo.Discovery.Search.Trusted.{raise_if_passed}
use limit_halo.SignIn.{
  TrustedAuthClient, Texts, anthropic_trust, same_path, reparse_free, trusted_codex_client,
  codex_client, claude_client, is_claude_file, trusted_at, else_next, trusted_claude_client,
  same_args, expected_args, launch_path, verified_path, check_launch_identity,
  launch_trusted_client, launch_provider_sign_in, or_os_error, launch_failure,
}

module _ (w : Windows) where
  -- `provider` is "codex", and the command is the login of an executable with the path of the
  -- candidate's that was verified again.
  abbrev pub IsCodexStart : Result CodexCandidate → String → List String → Type 0
  IsCodexStart discovered provider command =
      (provider ≡ "codex")
      × ((executable : String) × (command ≡ executable ∷ "login" ∷ [])
          × ((c : CodexCandidate) × (discovered ≡ ok c)
              × ((verified : String) × (verify_candidate_unchanged w c ≡ ok verified)
                  × (same_path w verified executable ≡ true))))

  -- `provider` is "claude", and the command is the login of an executable with the path of one that
  -- Anthropic signed.
  abbrev pub IsClaudeStart : Texts → String → List String → Type 0
  IsClaudeStart u provider command =
      (provider ≡ "claude")
      × ((executable : String) × (command ≡ executable ∷ "auth" ∷ "login" ∷ [])
          × ((trusted : String) × (anthropic_trust u (w.trust trusted) ≡ true)
              × (same_path w executable trusted ≡ true)))

  verified_path_same :
      (executable : String) (r : Result String)
      → verified_path w executable r ≡ ok tt
      → (verified : String) × (r ≡ ok verified) × (same_path w verified executable ≡ true)
  verified_path_same executable (err e) h = cc
  verified_path_same executable (ok v) h = (v, refl, raise_if_passed (same_path w v executable) _ h)

  abbrev is_changed : CodexCandidate → String → Bool
  is_changed c path =
      not (same_path w path c.executable) || not (str_eq (w.folded_name path) "codex.exe")

  abbrev unchanged_client : CodexCandidate → String → Result TrustedAuthClient
  unchanged_client c path = do
    raise_if (is_changed c path) (runtime_error "trusted Codex client changed")
    ok (codex_client c path)

  trusted_codex_client_found :
      (discovered : Result CodexCandidate) (client : TrustedAuthClient)
      → trusted_codex_client w discovered ≡ ok client
      → (c : CodexCandidate) × (discovered ≡ ok c)
        × ((path : String) × (codex_client c path ≡ client))
  unfolding trusted_codex_client
  trusted_codex_client_found (err e) client h = cc
  trusted_codex_client_found (ok c) client h =
      let (path, _, e1) =
        bind_returned (or_os_error (w.resolve c.executable)) (unchanged_client c) h in
      let (_, returned) =
        then_returned (raise_if (is_changed c path) (runtime_error "trusted Codex client changed"))
          (ok (codex_client c path)) e1 in
      let same : codex_client c path ≡ client = cc in (c, refl, (path, same))

  trusted_at_signed :
      (u : Texts) (candidate : String) (resolved : Option String) (path : String)
      → trusted_at w u candidate resolved ≡ some path
      → anthropic_trust u (w.trust path) ≡ true
  trusted_at_signed u candidate none path h = cc
  trusted_at_signed u candidate (some resolved) path h =
      if_holds (λ x. x ≡ some path → anthropic_trust u (w.trust path) ≡ true)
        (is_claude_file w candidate resolved && anthropic_trust u (w.trust resolved))
        (some resolved) none
        (λ test same.
          let (_, signed) = both_true (is_claude_file w candidate resolved) _ test in
          let equal : resolved ≡ path = cc in
          subst (λ x. anthropic_trust u (w.trust x) ≡ true) equal signed)
        (λ _ same. cc) h

  -- The client is at a path that is signed.
  abbrev IsSigned : Texts → TrustedAuthClient → Type 0
  IsSigned u client =
      (path : String) × (anthropic_trust u (w.trust path) ≡ true) × (claude_client path ≡ client)

  else_next-IsSigned :
      (u : Texts) (found : Option String) (next : Result TrustedAuthClient)
      (client : TrustedAuthClient)
      → ((path : String) → found ≡ some path → anthropic_trust u (w.trust path) ≡ true)
      → (next ≡ ok client → IsSigned u client)
      → else_next found next ≡ ok client
      → IsSigned u client
  else_next-IsSigned u none next client signed later h = later h
  else_next-IsSigned u (some path) next client signed later h = (path, signed path refl, cc)

  trusted_claude_client-IsSigned :
      (u : Texts) (places : List String) (client : TrustedAuthClient)
      → trusted_claude_client w u places ≡ ok client
      → IsSigned u client
  unfolding trusted_claude_client
  trusted_claude_client-IsSigned u [] client h = cc
  trusted_claude_client-IsSigned u (c ∷ cs) client h =
      else_next-IsSigned u (if reparse_free w c then trusted_at w u c (w.resolve c) else none) _
        client
        (λ path.
          if_holds (λ x. x ≡ some path → anthropic_trust u (w.trust path) ≡ true) (reparse_free w c)
            (trusted_at w u c (w.resolve c)) none
            (λ _ same. trusted_at_signed u c (w.resolve c) path same) (λ _ same. cc))
        (trusted_claude_client-IsSigned u cs client) h

  module _ (suffix : String → String) where
    abbrev same_executable : TrustedAuthClient → String → Bool
    same_executable client path = same_path w path client.executable && str_eq (suffix path) ".exe"

    abbrev unchanged_executable : TrustedAuthClient → String → Result String
    unchanged_executable client path = do
      raise_if (not (same_executable client path))
          (runtime_error "authentication executable changed")
      ok path

    unchanged_executable_same :
        (client : TrustedAuthClient) (path executable : String)
        → unchanged_executable client path ≡ ok executable
        → same_path w executable client.executable ≡ true
    unchanged_executable_same client path executable h =
        let (passed, returned) =
          then_returned
            (raise_if (not (same_executable client path))
              (runtime_error "authentication executable changed"))
            (ok path) h in
        let (same, _) =
          both_true (same_path w path client.executable) (str_eq (suffix path) ".exe") (
            raise_if_passed (same_executable client path)
              (runtime_error "authentication executable changed") passed) in
        let equal : path ≡ executable = cc in
        subst (λ x. same_path w x client.executable ≡ true) equal same

    launch_path_same :
        (client : TrustedAuthClient) (executable : String)
        → launch_path w suffix client ≡ ok executable
        → same_path w executable client.executable ≡ true
    unfolding launch_path
    launch_path_same client executable h =
        let (_, e1) =
          then_returned
            (raise_if (not (mem client.provider ("codex" ∷ "claude" ∷ [])))
              (runtime_error "unsupported provider"))
            _ h in
        let (_, e2) =
          then_returned
            (raise_if (not (same_args client.fixed_args (expected_args client.provider)))
              (runtime_error "authentication arguments rejected"))
            _ e1 in
        let (path, _, e3) =
          bind_returned (or_os_error (w.resolve client.executable)) (unchanged_executable client)
            e2 in
        unchanged_executable_same client path executable e3

    launch_trusted_client_steps :
        (client : TrustedAuthClient) (command : List String)
        → launch_trusted_client w suffix client ≡ ok command
        → (executable : String) × (command ≡ executable ∷ client.fixed_args)
          × (same_path w executable client.executable ≡ true)
          × (check_launch_identity w client executable ≡ ok tt)
    unfolding launch_trusted_client
    launch_trusted_client_steps client command h =
        let (executable, h1, e1) = bind_returned (launch_path w suffix client) _ h in
        let (h2, e2) = then_returned (check_launch_identity w client executable) _ e1 in
        (executable, cc, launch_path_same client executable h1, h2)

    codex_start :
        (discovered : Result CodexCandidate) (command : List String)
        → (trusted_codex_client w discovered >>= launch_trusted_client w suffix) ≡ ok command
        → IsCodexStart discovered "codex" command
    codex_start discovered command h =
        let (client, h1, e1) = bind_returned (trusted_codex_client w discovered) _ h in
        let (c, found, (path, same)) = trusted_codex_client_found discovered client h1 in
        let started : launch_trusted_client w suffix (codex_client c path) ≡ ok command =
          subst (λ x. launch_trusted_client w suffix x ≡ ok command) (sym same) e1 in
        let (executable, shape, _, identity) =
          launch_trusted_client_steps (codex_client c path) command started in
        let (verified, again, equal) =
          verified_path_same executable (verify_candidate_unchanged w c) identity in
        (refl, (executable, shape, (c, found, (verified, again, equal))))

    claude_start :
        (u : Texts) (places : List String) (command : List String)
        → (trusted_claude_client w u places >>= launch_trusted_client w suffix) ≡ ok command
        → IsClaudeStart u "claude" command
    claude_start u places command h =
        let (client, h1, e1) = bind_returned (trusted_claude_client w u places) _ h in
        let (path, signed, same) = trusted_claude_client-IsSigned u places client h1 in
        let started : launch_trusted_client w suffix (claude_client path) ≡ ok command =
          subst (λ x. launch_trusted_client w suffix x ≡ ok command) (sym same) e1 in
        let (executable, shape, equal, _) =
          launch_trusted_client_steps (claude_client path) command started in
        (refl, (executable, shape, (path, signed, equal)))

    -- A start is one of the provider that is asked for: of a Codex client whose candidate the search
    -- returned and whose identity was verified again, or of a Claude client at the path of an
    -- executable that Anthropic signed. The arguments are the fixed ones.
    pub launch_provider_sign_in-IsTrusted :
        (u : Texts) (discovered : Result CodexCandidate) (places : List String) (provider : String)
        (command : List String)
        → launch_provider_sign_in w suffix u discovered places provider ≡ ok command
        → IsCodexStart discovered provider command ⊎ IsClaudeStart u provider command
    unfolding launch_provider_sign_in
    launch_provider_sign_in-IsTrusted u discovered places provider command =
        if_holds
          (λ r.
            r ≡ ok command
            → IsCodexStart discovered provider command ⊎ IsClaudeStart u provider command)
          (str_eq provider "codex")
          (trusted_codex_client w discovered >>= launch_trusted_client w suffix)
          (if str_eq provider "claude"
            then trusted_claude_client w u places >>= launch_trusted_client w suffix
            else launch_failure "unsupported provider")
          (λ codex h.
            let same : provider ≡ "codex" = (eq_iff provider "codex").0 codex in
            inl (same, (codex_start discovered command h).1))
          (λ _.
            if_holds
              (λ r.
                r ≡ ok command
                → IsCodexStart discovered provider command ⊎ IsClaudeStart u provider command)
              (str_eq provider "claude")
              (trusted_claude_client w u places >>= launch_trusted_client w suffix)
              (launch_failure "unsupported provider")
              (λ claude h.
                let same : provider ≡ "claude" = (eq_iff provider "claude").0 claude in
                inr (same, (claude_start u places command h).1))
              (λ _ h. cc))
