-- ===== src/Runtime/Tokens/Laws.antt =====
-- The cache of the tokens is transparent, and what that gives for a token's life.
use gooseherd.Prelude.{
  ℕ, ◌+◌, ◌≤◌, String, ◌≡◌, inl, inr, Bool, false, ◌&&◌, Option, none, some, List, [], ◌∷◌, max,
  arith, eq_iff, ltb, Option-cases, ◌==◌, String-Eq, Nat-Eq,
}
use gooseherd.Runtime.KeyedTable.{KeyedTable}
use gooseherd.Runtime.Tokens.{
  TokenRow, CachedToken, TokenStore, validate_run_token, issue_run_token, revoke_run_token,
  stamped_row,
}

-- The row that stands behind an entry of the cache.
abbrev pub IsBackedBy : CachedToken → Option TokenRow → Type 0
IsBackedBy cached none = ⊥
IsBackedBy cached (some row) =
    (row.token_hash ≡ cached.token_hash) × (row.expires_at ≡ cached.expires_at)

-- The answer that the row alone gives: the token is the run's, and has not expired.
abbrev pub row_answer : Option TokenRow → String → ℕ → Bool
row_answer none token_hash now = false
row_answer (some row) token_hash now = ltb now row.expires_at && row.token_hash == token_hash

module _ (table : KeyedTable TokenRow) (hash_token : String → String) where
  open table use {find, find-put, find-remove}

  abbrev Tokens : Type 0
  Tokens = TokenStore table hash_token

  -- Every entry of the cache has a row behind it. Only this process revokes tokens.
  pub record IsCoherent (s : Tokens) : Type 0 where
    pub at :
        (run_id : String) (cached : CachedToken)
        → s.cache run_id ≡ some cached
        → IsBackedBy cached (find run_id s.rows)

  -- The answer of `validateRunToken` is the one that the row gives, whatever is cached.
  pub validate-eq-row_answer :
      (s : Tokens) (run_id token : String) (now : ℕ)
      → IsCoherent s
      → (validate_run_token table hash_token run_id token now s).0
        ≡ row_answer (find run_id s.rows) (hash_token token) now
  unfolding validate_run_token
  validate-eq-row_answer s run_id token now coherent = elim (Option-cases (s.cache run_id)) [
    | inl miss ↦ ground arith
    | inr (cached, hit) ↦ ground (arith, coherent.at run_id cached)
  ]

  pub issue-IsCoherent :
      (s : Tokens) (run_id : String) (ttl_ms : ℕ) (token : String) (now : ℕ)
      → IsCoherent s
      → IsCoherent (issue_run_token table hash_token run_id ttl_ms token now s).1
  unfolding issue_run_token
  issue-IsCoherent s run_id ttl_ms token now coherent = record {
    at = λ j cached hit. ground (
      arith,
      coherent.at j cached,
      eq_iff run_id j,
      find-put run_id j
          (record {
            token_hash = hash_token token;
            issued_at = now;
            used_at = none;
            expires_at = now + max 1 ttl_ms;
          })
          s.rows,
    );
  }

  pub revoke-IsCoherent :
      (s : Tokens) (run_id : String)
      → IsCoherent s
      → IsCoherent (revoke_run_token table hash_token run_id s)
  unfolding revoke_run_token
  revoke-IsCoherent s run_id coherent = record {
    at = λ j cached hit.
        ground (arith, coherent.at j cached, eq_iff run_id j, find-remove run_id j s.rows);
  }

  pub validate-IsCoherent :
      (s : Tokens) (run_id token : String) (now : ℕ)
      → IsCoherent s
      → IsCoherent (validate_run_token table hash_token run_id token now s).1
  unfolding validate_run_token
  validate-IsCoherent s run_id token now coherent = record {
    at = λ j cached hit. elim (Option-cases (find run_id s.rows)) [
      | inl gone ↦ ground (arith, coherent.at j cached, eq_iff run_id j)
      | inr (row, found) ↦ ground (
        arith,
        coherent.at j cached,
        eq_iff run_id j,
        find-put run_id j (stamped_row table hash_token row now) s.rows,
      )
    ];
  }

  used-row_kept :
      (s : Tokens) (run_id j token : String) (now used : ℕ) (row : TokenRow)
      → find run_id s.rows ≡ some row
      → row.used_at ≡ some used
      → find run_id (validate_run_token table hash_token j token now s).1.rows ≡ some row
  unfolding validate_run_token
  used-row_kept s run_id j token now used row found stamped = elim (Option-cases (find j s.rows)) [
    | inl gone ↦ ground arith
    | inr (other, at) ↦
        ground (
          arith,
          eq_iff j run_id,
          find-put j run_id (stamped_row table hash_token other now) s.rows,
        )
  ]

  -- The store after any checks of any tokens, each at its time.
  abbrev pub validate_all : List (String × String × ℕ) → Tokens → Tokens
  validate_all [] s = s
  validate_all ((run_id, token, now) ∷ calls) s =
      validate_all calls (validate_run_token table hash_token run_id token now s).1

  validate_all-kept :
      (calls : List (String × String × ℕ)) (s : Tokens) (run_id : String) (used : ℕ)
      (row : TokenRow)
      → find run_id s.rows ≡ some row
      → row.used_at ≡ some used
      → find run_id (validate_all calls s).rows ≡ some row
  validate_all-kept [] s run_id used row found stamped = found
  validate_all-kept ((j, token, now) ∷ calls) s run_id used row found stamped =
      validate_all-kept calls (validate_run_token table hash_token j token now s).1 run_id used row
        (used-row_kept s run_id j token now used row found stamped) stamped

  validate_all-IsCoherent :
      (calls : List (String × String × ℕ)) (s : Tokens)
      → IsCoherent s
      → IsCoherent (validate_all calls s)
  validate_all-IsCoherent [] s coherent = coherent
  validate_all-IsCoherent ((j, token, now) ∷ calls) s coherent =
      validate_all-IsCoherent calls (validate_run_token table hash_token j token now s).1
        (validate-IsCoherent s j token now coherent)

  -- Once a token has been used, no number of checks makes it live longer: after any of them, it is
  -- refused from the expiry on that its row has now.
  pub used_token_expires :
      (calls : List (String × String × ℕ)) (s : Tokens) (run_id token : String) (used now : ℕ)
      (row : TokenRow)
      → IsCoherent s
      → find run_id s.rows ≡ some row
      → row.used_at ≡ some used
      → row.expires_at ≤ now
      → (validate_run_token table hash_token run_id token now (validate_all calls s)).0 ≡ false
  used_token_expires calls s run_id token used now row coherent found stamped late = ground (
    arith,
    validate-eq-row_answer (validate_all calls s) run_id token now
        (validate_all-IsCoherent calls s coherent),
    validate_all-kept calls s run_id used row found stamped,
  )
