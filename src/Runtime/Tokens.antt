-- ===== src/Runtime/Tokens.antt =====
-- src/runtime/control-plane-store.ts: the token that a runner shows, its row in the database, and
-- the cache of the process. The hash and the random token are arguments. One call reads the clock
-- once, as `now`.
pub mod Laws
use gooseherd.Prelude.{
  ℕ, zero, suc, ◌+◌, ◌-◌, ◌*◌, ◌/◌, ◌%◌, ◌≤◌, ◌<◌, String, ◌≡◌, refl, sym, ap, subst, ◌∙◌, ◌≢◌, ◌↔◌,
  ◌⊎◌, inl, inr, Bool, true, false, ◌&&◌, ◌||◌, not, Option, none, some, List, [], ◌∷◌, ◌++◌, map,
  max, arith, eq_iff, ltb, leb, nat_eq, nat_eq_iff, if◌then◌else◌, or_default, ◌<|>◌, Bool-cases,
  Option-cases, Eq, ◌==◌, String-Eq, Nat-Eq, ==_refl, ==_sym, length, any, every, keep, is_empty,
  last_or, includes, add, delete, add_all, delete_all, distinct, includes-append, includes-add,
  includes-delete, includes-add_all, includes-delete_all, includes-distinct, delete_absent, Result,
  ok, err, ◌>>=◌, map_option,
}
use gooseherd.Runtime.KeyedTable.{KeyedTable}

pub record TokenRow : Type 0 where
  pub token_hash : String
  pub issued_at : ℕ
  pub used_at : Option ℕ
  pub expires_at : ℕ

pub record CachedToken : Type 0 where
  pub token_hash : String
  pub expires_at : ℕ
  pub used_at : Option ℕ
  pub cached_at : ℕ

abbrev pub run_token_cache_ttl_ms : ℕ
run_token_cache_ttl_ms = 60000

abbrev pub default_run_token_ttl_ms : ℕ
default_run_token_ttl_ms = 20 * 60 * 1000

-- `ControlPlaneConflictError`
pub data ConflictError : Type 0 where
  token_already_issued : String → ConflictError
  completion_already_recorded : String → ConflictError

-- A JavaScript `Map` of the process.
abbrev pub Cache : Type 0
Cache = String → Option CachedToken

abbrev pub cache_set : String → CachedToken → Cache → Cache
cache_set run_id cached cache = λ j. if run_id == j then some cached else cache j

abbrev pub cache_delete : String → Cache → Cache
cache_delete run_id cache = λ j. if run_id == j then none else cache j

-- An entry of the cache that is too old, or whose token has expired.
abbrev pub is_stale : CachedToken → ℕ → Bool
is_stale cached now =
    leb (cached.cached_at + run_token_cache_ttl_ms) now || leb cached.expires_at now

module _ (table : KeyedTable TokenRow) (hash_token : String → String) where
  open table use {Rows, find, put, remove}

  -- The rows are the database's, the cache is the store's own.
  pub record TokenStore : Type 0 where
    pub rows : Rows
    pub cache : Cache

  unfoldable pub issue_run_token :
      String → ℕ → String → ℕ → TokenStore → Result ConflictError String × TokenStore
  issue_run_token run_id ttl_ms token now s = elim (find run_id s.rows) [
    | some row ↦ (err (token_already_issued run_id), s)
    | none ↦
        let row : TokenRow = record {
          token_hash = hash_token token;
          issued_at = now;
          used_at = none;
          expires_at = now + max 1 ttl_ms;
        } in
        (ok token, record s { rows = put run_id row s.rows; cache = cache_delete run_id s.cache })
  ]

  unfoldable pub revoke_run_token : String → TokenStore → TokenStore
  revoke_run_token run_id s = record s {
    rows = remove run_id s.rows;
    cache = cache_delete run_id s.cache;
  }

  unfoldable pub read_cached_run_token : String → ℕ → TokenStore → Option CachedToken × TokenStore
  read_cached_run_token run_id now s = elim (s.cache run_id) [
    | none ↦ (none, s)
    | some cached ↦
        if is_stale cached now
        then (none, record s { cache = cache_delete run_id s.cache })
        else (some cached, s)
  ]

  abbrev pub cached_row : TokenRow → ℕ → CachedToken
  cached_row row now = record {
    token_hash = row.token_hash;
    expires_at = row.expires_at;
    used_at = row.used_at;
    cached_at = now;
  }

  -- The row after `stampTokenUse`: the first use restarts the time to live.
  unfoldable pub stamped_row : TokenRow → ℕ → TokenRow
  stamped_row row now = elim row.used_at [
    | some used ↦ row
    | none ↦ record row {
      used_at = some now;
      expires_at = now + max 1 (row.expires_at - row.issued_at);
    }
  ]

  -- The rows after `stampTokenUse`: only a first use writes.
  unfoldable pub stamp_token_use : String → TokenRow → ℕ → Rows → Rows
  unfolding stamped_row
  stamp_token_use run_id row now rows = elim row.used_at [
    | some used ↦ rows
    | none ↦ put run_id (stamped_row row now) rows
  ]

  -- The part of `validateRunToken` behind a miss of the cache. The entry of the cache that
  -- `stampTokenUse` would refresh is replaced by `cacheRunToken` at once.
  unfoldable pub validate_by_row : String → String → ℕ → TokenStore → Bool × TokenStore
  unfolding stamped_row stamp_token_use
  validate_by_row run_id token now s = elim (find run_id s.rows) [
    | none ↦ (false, record s { cache = cache_delete run_id s.cache })
    | some row ↦
        if leb row.expires_at now
        then (false, record s { cache = cache_delete run_id s.cache })
        else if not (row.token_hash == hash_token token)
        then (false, s)
        else (
          true,
          record s {
            rows = stamp_token_use run_id row now s.rows;
            cache = cache_set run_id (cached_row (stamped_row row now) now) s.cache;
          },
        )
  ]

  unfoldable pub validate_run_token : String → String → ℕ → TokenStore → Bool × TokenStore
  unfolding read_cached_run_token validate_by_row
  validate_run_token run_id token now s =
      let read = read_cached_run_token run_id now s in
      elim read.0 [
        | some cached ↦ (cached.token_hash == hash_token token, read.1)
        | none ↦ validate_by_row run_id token now read.1
      ]
