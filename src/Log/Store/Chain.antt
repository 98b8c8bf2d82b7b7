-- ===== src/Log/Store/Chain.antt =====
-- packages/log/src/store.ts: what `append` keeps true of the entries table (invariant I-LOG-3).
use zero_window.Prelude.{
  ℕ, suc, ◌+◌, ◌≤◌, ◌≡◌, refl, sym, ap, subst, ◌∙◌, append-nil, append_assoc, true, false, Bytes,
  Text, some, List, [], ◌∷◌, ◌++◌, length, get_last?, ltb, ok, Result-cases, inl, inr, arith,
  Bool-cases,
}
use zero_window.Crypto.Sodium.{Sodium, SodiumLaws}
use zero_window.Crypto.Hash.{domain_hash, sign_domain, verify_domain, verify_domain-sign_domain}
use zero_window.Encoding.{to_hex, from_hex}
use zero_window.Encoding.Laws.{from_hex-to_hex}
use zero_window.Log.Types.{LogEntry}
use zero_window.Log.Store.{
  zero_hash, entry_domain, Log, Writer, AppendOptions, Reservation, body_of, body_for,
  entry_commitment_bytes, reserve, conflicts, place, insert_entry, signed_entry, commit,
}

-- The last hash of a table, or the one that stands before it.
abbrev pub last_hash : Text → List LogEntry → Text
last_hash prev [] = prev
last_hash prev (e ∷ es) = last_hash e.hash es

module _ (sodium : Sodium) where
  -- The entry's hash and signature are those of its body.
  abbrev pub IsSealed : LogEntry → Type 0
  IsSealed e =
      (bytes : Bytes) × (entry_commitment_bytes (body_of e) ≡ ok bytes)
      × (e.hash ≡ to_hex (domain_hash sodium entry_domain (bytes ∷ [])))
      × (verify_domain sodium entry_domain bytes (from_hex e.signature)
            (from_hex e.signer_public_key)
          ≡ true)

  -- The entries count on from `n`, each sealed, and each names the hash of the one before it.
  abbrev pub ChainFrom : ℕ → Text → List LogEntry → Type 0
  ChainFrom n prev [] = Unit
  ChainFrom n prev (e ∷ es) =
      (e.seq ≡ n) × (e.prev_hash ≡ prev) × IsSealed e × ChainFrom (suc n) e.hash es

  abbrev pub IsChain : List LogEntry → Type 0
  IsChain entries = ChainFrom 0 zero_hash entries

  ChainFrom-snoc :
      (n : ℕ) (prev : Text) (es : List LogEntry) (e : LogEntry)
      → ChainFrom n prev es
      → e.seq ≡ n + length es
      → e.prev_hash ≡ last_hash prev es
      → IsSealed e
      → ChainFrom n prev (es ++ e ∷ [])
  ChainFrom-snoc n prev [] e h a b s = (omega arith, b, s, tt)
  ChainFrom-snoc n prev (x ∷ es) e h a b s =
      (h.0, h.1, h.2, ChainFrom-snoc (suc n) x.hash es e h.3 (omega arith) b s)

  -- A table that is a chain places a row of the next number at its end.
  place_last :
      (n : ℕ) (prev : Text) (es : List LogEntry) (e : LogEntry)
      → ChainFrom n prev es
      → n + length es ≤ e.seq
      → place e es ≡ es ++ e ∷ []
  unfolding place
  place_last n prev [] e h a = refl
  place_last n prev (x ∷ es) e h a =
      let below : ltb x.seq e.seq ≡ true = ground (arith, h.0) in
      rw below (ap (λ r. x ∷ r) (place_last (suc n) x.hash es e h.3 (omega arith)))

  -- A number that the table holds already is refused.
  conflicts_inside :
      (n : ℕ) (prev : Text) (pre : List LogEntry) (x : LogEntry) (suf : List LogEntry)
      (e : LogEntry)
      → ChainFrom n prev (pre ++ x ∷ suf)
      → e.seq ≡ n + length pre
      → conflicts e (pre ++ x ∷ suf) ≡ true
  unfolding conflicts
  conflicts_inside n prev [] x suf e h a = ground (arith, h.0)
  conflicts_inside n prev (y ∷ pre) x suf e h a =
      ground (arith, conflicts_inside (suc n) y.hash pre x suf e h.3)

  reserve_from :
      (n : ℕ) (prev : Text) (e : LogEntry) (es : List LogEntry)
      → ChainFrom n prev (e ∷ es)
      → (row : LogEntry) × (get_last? (e ∷ es) ≡ some row)
        × (row.seq + 1 ≡ n + length (e ∷ es))
        × (row.hash ≡ last_hash prev (e ∷ es))
  reserve_from n prev e [] h = (e, refl, omega arith, refl)
  reserve_from n prev e (x ∷ es) h =
      let (row, last, a, b) = reserve_from (suc n) e.hash x es h.3 in (row, last, omega arith, b)

  -- On a chain the reservation is the next number and the hash of the last entry.
  pub reserve_next :
      (es : List LogEntry)
      → IsChain es
      → ((reserve es).seq ≡ length es) × ((reserve es).prev_hash ≡ last_hash zero_hash es)
  unfolding reserve
  reserve_next [] h = (refl, refl)
  reserve_next (e ∷ es) h =
      let (row, last, a, b) = reserve_from 0 zero_hash e es h in rw (last, reserve) (omega arith, b)

  -- A slot that was reserved when the table was a shorter, or the same, table.
  abbrev pub WasReserved : Reservation → List LogEntry → Type 0
  WasReserved slot entries =
      (pre : List LogEntry) × (suf : List LogEntry) × (entries ≡ pre ++ suf)
      × (slot.seq ≡ length pre)
      × (slot.prev_hash ≡ last_hash zero_hash pre)

  pub reserve-WasReserved : (es : List LogEntry) → IsChain es → WasReserved (reserve es) es
  reserve-WasReserved es c =
      (es, [], sym (append-nil es), (reserve_next es c).0, (reserve_next es c).1)

  -- A slot stays reserved while the table grows.
  pub WasReserved-grow :
      (slot : Reservation) (es : List LogEntry) (e : LogEntry)
      → WasReserved slot es
      → WasReserved slot (es ++ e ∷ [])
  WasReserved-grow slot es e (pre, suf, whole, a, b) =
      (pre, suf ++ e ∷ [], ap (λ r. r ++ e ∷ []) whole ∙ append_assoc pre suf (e ∷ []), a, b)

  module _ (laws : SodiumLaws sodium) where
    signed_entry-IsSealed :
        (w : Writer) (slot : Reservation) (opts : AppendOptions) (bytes : Bytes)
        → entry_commitment_bytes (body_for w.actor slot opts) ≡ ok bytes
        → IsSealed (signed_entry sodium w (body_for w.actor slot opts) bytes)
    unfolding signed_entry sign_domain
    signed_entry-IsSealed w slot opts bytes e = (
      bytes,
      e,
      refl,
      rw
          (
            from_hex-to_hex _ (laws.signature_are_bytes _ w.secret_key),
            from_hex-to_hex (sodium.public_key w.secret_key)
                (laws.public_key_are_bytes w.secret_key),
          )
          (unfold sign_domain in
            verify_domain-sign_domain sodium laws entry_domain bytes w.secret_key),
    )

    -- What a commit that returned has done.
    abbrev pub Appended : Writer → AppendOptions → Log → LogEntry → Log → Type 0
    Appended w opts log e log' =
        (log'.entries ≡ log.entries ++ e ∷ [])
        × IsChain log'.entries
        × (log'.checkpoints ≡ log.checkpoints)
        × (e.type ≡ opts.type)
        × (e.payload ≡ opts.payload)
        × (e.ts ≡ opts.ts)
        × (e.actor ≡ w.actor)

    commit_inv :
        (w : Writer) (slot : Reservation) (opts : AppendOptions) (log : Log) {e : LogEntry}
        {log' : Log}
        → commit sodium w slot opts log ≡ ok (e, log')
        → (bytes : Bytes) × (entry_commitment_bytes (body_for w.actor slot opts) ≡ ok bytes)
          × (conflicts (signed_entry sodium w (body_for w.actor slot opts) bytes) log.entries
              ≡ false)
          × (e ≡ signed_entry sodium w (body_for w.actor slot opts) bytes)
          × (log'.entries ≡ place e log.entries)
          × (log'.checkpoints ≡ log.checkpoints)
    unfolding commit insert_entry
    commit_inv w slot opts log h =
        elim (Result-cases (entry_commitment_bytes (body_for w.actor slot opts))) [
          | inr (error, e) ↦ absurd (ground arith)
          | inl (bytes, e) ↦
              elim (Bool-cases (
                conflicts (signed_entry sodium w (body_for w.actor slot opts) bytes) log.entries)) [
                  | inl taken ↦ absurd (ground arith)
                  | inr free ↦ (bytes, e, free, ground arith, ground arith, ground arith)
                ]
        ]

    -- Whenever a slot that was reserved on an earlier state of the table is committed with
    -- success, the entry stands at the end and the table is a chain.
    pub commit-IsChain :
        (w : Writer) (slot : Reservation) (opts : AppendOptions) (log : Log) {e : LogEntry}
        {log' : Log}
        → IsChain log.entries
        → WasReserved slot log.entries
        → commit sodium w slot opts log ≡ ok (e, log')
        → Appended w opts log e log'
    unfolding signed_entry
    commit-IsChain w slot opts log c (pre, x ∷ suf, whole, a, b) h =
        let (bytes, enc, free, same, rows, rest) = commit_inv w slot opts log h in
        let entry = signed_entry sodium w (body_for w.actor slot opts) bytes in
        let free' : conflicts entry (pre ++ x ∷ suf) ≡ false =
          subst (λ r. conflicts entry r ≡ false) whole free in
        let taken : conflicts entry (pre ++ x ∷ suf) ≡ true =
          conflicts_inside 0 zero_hash pre x suf entry (subst IsChain whole c) (omega arith) in
        absurd (cc)
    commit-IsChain w slot opts log c (pre, [], whole, a, b) h =
        let (bytes, enc, free, same, rows, rest) = commit_inv w slot opts log h in
        let entry = signed_entry sodium w (body_for w.actor slot opts) bytes in
        let all : log.entries ≡ pre = whole ∙ append-nil pre in
        let placed : place entry log.entries ≡ log.entries ++ entry ∷ [] =
          place_last 0 zero_hash log.entries entry c (omega (arith, ap length all)) in
        let chain : IsChain (log.entries ++ entry ∷ []) =
          ChainFrom-snoc 0 zero_hash log.entries entry c (omega (arith, ap length all))
            (b ∙ ap (last_hash zero_hash) (sym all))
            (signed_entry-IsSealed w slot opts bytes enc) in
        (
          rows ∙ subst (λ x. place x log.entries ≡ log.entries ++ x ∷ []) (sym same) placed,
          subst IsChain (sym (rows ∙ ap (λ x. place x log.entries) same ∙ placed)) chain,
          rest,
          ap (λ x. x.type) same,
          ap (λ x. x.payload) same,
          ap (λ x. x.ts) same,
          ap (λ x. x.actor) same,
        )
