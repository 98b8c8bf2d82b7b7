-- ===== src/Log/Verify/Chain.antt =====
-- packages/log/src/verify.ts: what `verifyChain` establishes.
use zero_window.Prelude.{
  ℕ, suc, ◌≡◌, refl, ap, ◌∙◌, ◌↔◌, inl, inr, Bool, true, false, ◌&&◌, not, Text, Option, none, some,
  List, [], ◌∷◌, ◌++◌, ◌==◌, equals_iff, Result, ok, err, map_ok, and_then, arith, Option-cases,
  Result-cases,
}
use zero_window.Crypto.Sodium.{Sodium}
use zero_window.Crypto.Hash.{domain_hash}
use zero_window.Encoding.{to_hex}
use zero_window.Log.Canonical.{CanonicalizationError}
use zero_window.Log.Types.{LogEntry}
use zero_window.Log.Store.{zero_hash, entry_domain, body_of, entry_commitment_bytes}
use zero_window.Log.Store.Chain.{IsSealed, ChainFrom, IsChain}
use zero_window.Log.Verify.{
  Finding, Severity, fatal, warning, Code, seq_discontinuity, entry_invalid, Signers, lookup_signer,
  found_if, SelfCheck, valid, is_valid, verify_entry_self, link_findings, time_findings,
  signer_findings, entry_findings, chain_from, verify_chain,
}

abbrev pub is_fatal : Severity → Bool
is_fatal fatal = true
is_fatal warning = false

-- `!findings.some((f) => f.severity === "fatal")`.
unfoldable pub no_fatal : List Finding → Bool
no_fatal [] = true
no_fatal (f ∷ fs) = not (is_fatal f.severity) && no_fatal fs

pub no_fatal-append : (fs gs : List Finding) → no_fatal (fs ++ gs) ≡ (no_fatal fs && no_fatal gs)
unfolding no_fatal
no_fatal-append [] gs = refl
no_fatal-append (f ∷ fs) gs = ground (arith, no_fatal-append fs gs)

pub no_fatal-found_if :
    (test : Bool) (code : Code) (n : ℕ) → no_fatal (found_if test fatal code n) ≡ not test
unfolding no_fatal
no_fatal-found_if true code n = refl
no_fatal-found_if false code n = refl

-- The signer is the one that is trusted for the actor, if a set of signers is given.
abbrev pub IsTrusted : Option Signers → LogEntry → Type 0
IsTrusted none e = Unit
IsTrusted (some signers) e = lookup_signer e.actor signers ≡ some e.signer_public_key

abbrev pub AllTrusted : Option Signers → List LogEntry → Type 0
AllTrusted trusted [] = Unit
AllTrusted trusted (e ∷ es) = IsTrusted trusted e × AllTrusted trusted es

abbrev pub hash_before : Option LogEntry → Text
hash_before none = zero_hash
hash_before (some prev) = prev.hash

-- Verification returned, and found nothing fatal.
abbrev pub Passes : Result CanonicalizationError (List Finding) → Type 0
Passes (ok fs) = no_fatal fs ≡ true
Passes (err e) = ⊥

link_findings_iff :
    (prev : Option LogEntry) (e : LogEntry)
    → (no_fatal (link_findings prev e) ≡ true) ↔ (e.prev_hash ≡ hash_before prev)
unfolding link_findings no_fatal
link_findings_iff none e = ground (arith, equals_iff e.prev_hash zero_hash)
link_findings_iff (some prev) e = ground (arith, equals_iff e.prev_hash prev.hash)

time_findings_lem : (prev : Option LogEntry) (e : LogEntry) → no_fatal (time_findings prev e) ≡ true
unfolding time_findings no_fatal
time_findings_lem none e = refl
time_findings_lem (some prev) e = ground arith

signer_findings_iff :
    (trusted : Option Signers) (e : LogEntry)
    → (no_fatal (signer_findings trusted e) ≡ true) ↔ IsTrusted trusted e
unfolding signer_findings no_fatal
signer_findings_iff none e = ((λ _. tt), (λ _. refl))
signer_findings_iff (some signers) e = elim (Option-cases (lookup_signer e.actor signers)) [
  | inl missing ↦ ground arith
  | inr (key, found) ↦ ground (arith, equals_iff key e.signer_public_key)
]

module _ (sodium : Sodium) where
  IsSealed-self : (e : LogEntry) → IsSealed sodium e → verify_entry_self sodium e ≡ ok valid
  unfolding verify_entry_self
  IsSealed-self e (bytes, enc, hash, signature) =
      ground (arith, equals_iff (to_hex (domain_hash sodium entry_domain (bytes ∷ []))) e.hash)

  self-IsSealed : (e : LogEntry) → verify_entry_self sodium e ≡ ok valid → IsSealed sodium e
  unfolding verify_entry_self
  self-IsSealed e h = elim (Result-cases (entry_commitment_bytes (body_of e))) [
    | inr (error, failed) ↦ absurd (ground arith)
    | inl (bytes, enc) ↦ (
      bytes,
      enc,
      ground (arith, equals_iff (to_hex (domain_hash sodium entry_domain (bytes ∷ []))) e.hash),
      ground arith,
    )
  ]

  -- What one round of the loop checks.
  abbrev HasPassed : Option Signers → ℕ → Option LogEntry → LogEntry → Type 0
  HasPassed trusted i prev e =
      (e.seq ≡ i) × (e.prev_hash ≡ hash_before prev) × IsSealed sodium e × IsTrusted trusted e

  round_findings : Option Signers → ℕ → Option LogEntry → LogEntry → SelfCheck → List Finding
  round_findings trusted i prev e self =
      found_if (not (e.seq == i)) fatal seq_discontinuity e.seq
      ++ (found_if (not (is_valid self)) fatal entry_invalid e.seq
          ++ (link_findings prev e ++ (time_findings prev e ++ signer_findings trusted e)))

  round_findings_iff :
      (trusted : Option Signers) (i : ℕ) (prev : Option LogEntry) (e : LogEntry) (self : SelfCheck)
      → (no_fatal (round_findings trusted i prev e self) ≡ true)
        ↔ ((e.seq ≡ i) × (self ≡ valid) × (e.prev_hash ≡ hash_before prev) × IsTrusted trusted e)
  unfolding round_findings
  round_findings_iff trusted i prev e self =
      let seqs = found_if (not (e.seq == i)) fatal seq_discontinuity e.seq in
      let selfs = found_if (not (is_valid self)) fatal entry_invalid e.seq in
      let links = link_findings prev e in
      let times = time_findings prev e in
      let signs = signer_findings trusted e in
      let split : no_fatal (seqs ++ (selfs ++ (links ++ (times ++ signs)))) ≡ (
          not (not (e.seq == i))
          && (not (not (is_valid self)) && (no_fatal links && (true && no_fatal signs)))) =
        rw (
          no_fatal-append seqs (selfs ++ (links ++ (times ++ signs))),
          no_fatal-append selfs (links ++ (times ++ signs)),
          no_fatal-append links (times ++ signs),
          no_fatal-append times signs,
          time_findings_lem prev e,
          no_fatal-found_if (not (e.seq == i)) seq_discontinuity e.seq,
          no_fatal-found_if (not (is_valid self)) entry_invalid e.seq,
        ) in
      rw split (
        (λ h. (
          ground arith,
          ground arith,
          (link_findings_iff prev e).0 (ground arith),
          (signer_findings_iff trusted e).0 (ground arith),
        )),
        (λ h.
            ground
              (arith, (link_findings_iff prev e).1 h.2, (signer_findings_iff trusted e).1 h.3)),
      )

  Passes-map_ok :
      (f : SelfCheck → List Finding) (r : Result CanonicalizationError SelfCheck)
      → Passes (map_ok f r) ↔ ((self : SelfCheck) × (r ≡ ok self) × (no_fatal (f self) ≡ true))
  Passes-map_ok f (ok self) =
      ((λ h. (self, refl, h)), (λ s. let e : self ≡ s.0 = cc (s.1) in rw e s.2))
  Passes-map_ok f (err e) = ((λ h. absurd h), (λ s. cc (s.1)))

  pub Passes-and_then :
      (r t : Result CanonicalizationError (List Finding))
      → Passes (and_then r (λ found. map_ok (λ more. found ++ more) t)) ↔ (Passes r × Passes t)
  Passes-and_then (err e) t = ((λ h. absurd h), (λ s. s.0))
  Passes-and_then (ok fs) (err e) = ((λ h. absurd h), (λ s. s.1))
  Passes-and_then (ok fs) (ok gs) =
      rw (no_fatal-append fs gs) ((λ h. (ground arith, ground arith)), (λ s. ground arith))

  entry_findings_iff :
      (trusted : Option Signers) (i : ℕ) (prev : Option LogEntry) (e : LogEntry)
      → Passes (entry_findings sodium trusted i prev e) ↔ HasPassed trusted i prev e
  unfolding entry_findings round_findings
  entry_findings_iff trusted i prev e = (
    (λ h.
        let (self, checked, clean) =
          (Passes-map_ok (round_findings trusted i prev e) (verify_entry_self sodium e)).0 h in
        let (a, b, c, d) = (round_findings_iff trusted i prev e self).0 clean in
        (a, c, self-IsSealed e (checked ∙ ap ok b), d)),
    (λ p. (Passes-map_ok (round_findings trusted i prev e) (verify_entry_self sodium e)).1 (
      valid,
      IsSealed-self e p.2,
      (round_findings_iff trusted i prev e valid).1 (p.0, refl, p.1, p.3),
    )),
  )

  chain_from_iff :
      (trusted : Option Signers) (i : ℕ) (prev : Option LogEntry) (es : List LogEntry)
      → Passes (chain_from sodium trusted i prev es)
        ↔ (ChainFrom sodium i (hash_before prev) es × AllTrusted trusted es)
  unfolding chain_from no_fatal
  chain_from_iff trusted i prev [] = ((λ h. (tt, tt)), (λ h. refl))
  chain_from_iff trusted i prev (e ∷ es) =
      let step =
        Passes-and_then (entry_findings sodium trusted i prev e)
          (chain_from sodium trusted (suc i) (some e) es) in
      let one = entry_findings_iff trusted i prev e in
      let more = chain_from_iff trusted (suc i) (some e) es in
      (
        (λ h.
            let (p, q) = step.0 h in
            let (a, b, c, d) = one.0 p in
            let (rest, trust) = more.0 q in ((a, b, c, rest), (d, trust))),
        (λ h. step.1 (one.1 (h.0.0, h.0.1, h.0.2, h.1.0), more.1 (h.0.3, h.1.1))),
      )

  -- `verifyChain` returns with no fatal finding exactly when the entries are a chain (numbers from
  -- 0 without a gap, each entry naming the hash of the one before it, the first naming the zero
  -- hash, each hash and signature those of the entry's body) and, if trusted signers are given,
  -- every entry carries the key that is trusted for its actor.
  pub verify_chain_iff :
      (trusted : Option Signers) (entries : List LogEntry)
      → Passes (verify_chain sodium trusted entries)
        ↔ (IsChain sodium entries × AllTrusted trusted entries)
  unfolding verify_chain
  verify_chain_iff trusted entries = chain_from_iff trusted 0 none entries
