-- ===== src/Centre/Ledger/Rows.antt =====
-- Lemmas on the rows of a centre: an event or a row more, and a paper marked as printed.
use zero_window.Prelude.{
  ℕ, ◌≡◌, refl, sym, ap, subst, ◌∙◌, Bool, true, false, Text, some, List, [], ◌∷◌, ◌++◌, length,
  map, any, find, select, equals, equals_iff, append-nil, length-map, arith, Bool-cases, inl, inr,
}
use zero_window.Prelude.Sort.{HasDistinctKeys, IsFresh}
use zero_window.Prelude.Search.{find-append, find-holds, find_unique, select-append}
use zero_window.Centre.Store.{
  CheckinRecord, PaperRecord, has_seat, has_token, is_paper_of, is_paper_for, printed,
}
use zero_window.Centre.Node.{Event}
use zero_window.Centre.Ledger.{token_key, paper_seat, paper_token, AreMatched, IsPart}

-- An event of another type adds nothing to a selection; one of this type adds itself.
pub select-other :
    (p : Event → Bool) (log : List Event) (e : Event)
    → p e ≡ false
    → select p (log ++ e ∷ []) ≡ select p log
select-other p log e h = select-append p log (e ∷ []) ∙ (rw h (append-nil (select p log)))

pub select-own :
    (p : Event → Bool) (log : List Event) (e : Event)
    → p e ≡ true
    → select p (log ++ e ∷ []) ≡ select p log ++ e ∷ []
select-own p log e h = select-append p log (e ∷ []) ∙ (rw h refl)

-- A member more on the longer side, or on both.
pub IsPart-more : (xs ys : List Event) (e : Event) → IsPart xs ys → IsPart xs (ys ++ e ∷ [])
IsPart-more [] ys e h = tt
IsPart-more (x ∷ xs) [] e h = elim h [ ]
IsPart-more (x ∷ xs) (y ∷ ys) e (inl (same, h)) = inl (same, IsPart-more xs ys e h)
IsPart-more (x ∷ xs) (y ∷ ys) e (inr h) = inr (IsPart-more (x ∷ xs) ys e h)

pub IsPart-both :
    (xs ys : List Event) (e : Event) → IsPart xs ys → IsPart (xs ++ e ∷ []) (ys ++ e ∷ [])
IsPart-both [] [] e h = inl (refl, tt)
IsPart-both [] (y ∷ ys) e h = inr (IsPart-both [] ys e tt)
IsPart-both (x ∷ xs) [] e h = elim h [ ]
IsPart-both (x ∷ xs) (y ∷ ys) e (inl (same, h)) = inl (same, IsPart-both xs ys e h)
IsPart-both (x ∷ xs) (y ∷ ys) e (inr h) = inr (IsPart-both (x ∷ xs) ys e h)

pub map-snoc {ℓ} :
    {A : Type 0} {B : Type ℓ} (f : A → B) (xs : List A) (x : A)
    → map f (xs ++ x ∷ []) ≡ map f xs ++ f x ∷ []
map-snoc f [] x = refl
map-snoc f (y ∷ ys) x = ap (λ t. f y ∷ t) (map-snoc f ys x)

pub AreMatched-checkin :
    (cs : List CheckinRecord) (r : CheckinRecord) (ps : List PaperRecord)
    → AreMatched cs ps
    → AreMatched (cs ++ r ∷ []) ps
AreMatched-checkin cs r [] h = tt
AreMatched-checkin cs r (p ∷ ps) ((c, found, same), others) =
    ((c, find-append (has_seat p.seat) cs (r ∷ []) found, same), AreMatched-checkin cs r ps others)

pub AreMatched-paper :
    (cs : List CheckinRecord) (ps : List PaperRecord) (p : PaperRecord) {c : CheckinRecord}
    → find (has_seat p.seat) cs ≡ some c
    → c.token_hash ≡ p.token_hash
    → AreMatched cs ps
    → AreMatched cs (ps ++ p ∷ [])
AreMatched-paper cs [] p {c} found same h = ((c, found, same), tt)
AreMatched-paper cs (q ∷ ps) p found same h = (h.0, AreMatched-paper cs ps p found same h.1)

-- A candidate without a paper at the seat has no paper at all.
pub no_paper_for :
    (cs : List CheckinRecord) (ps : List PaperRecord) (seat : Text) (c : CheckinRecord)
    → HasDistinctKeys token_key cs
    → AreMatched cs ps
    → find (has_seat seat) cs ≡ some c
    → any (is_paper_of seat) ps ≡ false
    → any (is_paper_for c.token_hash) ps ≡ false
no_paper_for cs [] seat c d h found free = refl
no_paper_for cs (p ∷ ps) seat c d ((c', found', same), others) found free =
    let here : equals p.seat seat ≡ false = ground arith in
    let rest = no_paper_for cs ps seat c d others found (ground arith) in
    elim (Bool-cases (equals p.token_hash c.token_hash)) [
      | inr other ↦ rw (other) rest
      | inl mine ↦
          let token : c'.token_hash ≡ c.token_hash =
            same ∙ (equals_iff p.token_hash c.token_hash).0 mine in
          let one =
            find_unique token_key (has_seat p.seat) (has_seat seat) cs d found' found token in
          let at_p = (equals_iff c'.seat p.seat).0 (find-holds (has_seat p.seat) cs found') in
          let at_seat = (equals_iff c.seat seat).0 (find-holds (has_seat seat) cs found) in
          let seats : p.seat ≡ seat = sym at_p ∙ ap (λ r. r.seat) one ∙ at_seat in
          absurd (ground (arith, equals_iff p.seat seat))
    ]

-- Marking papers as printed changes neither their seats nor their tokens.
module _ (seat : Text) (at : ℕ) (printer_id job_ref transport : Text) where
  abbrev mark : PaperRecord → PaperRecord
  mark = printed seat at printer_id job_ref transport

  pub mark-paper_seat : (r : PaperRecord) → paper_seat (mark r) ≡ paper_seat r
  mark-paper_seat r = elim (Bool-cases (equals r.seat seat)) [
    | inl e ↦ rw e refl
    | inr e ↦ rw e refl
  ]

  pub mark-paper_token : (r : PaperRecord) → paper_token (mark r) ≡ paper_token r
  mark-paper_token r = elim (Bool-cases (equals r.seat seat)) [
    | inl e ↦ rw e refl
    | inr e ↦ rw e refl
  ]

  IsFresh-mark :
      (key : PaperRecord → Text)
      → ((r : PaperRecord) → key (mark r) ≡ key r)
      → (k : Text) (ps : List PaperRecord) → IsFresh key k ps
      → IsFresh key k (map mark ps)
  IsFresh-mark key same k [] h = h
  IsFresh-mark key same k (p ∷ ps) h = ((λ e. h.0 (e ∙ same p)), IsFresh-mark key same k ps h.1)

  pub HasDistinctKeys-mark :
      (key : PaperRecord → Text)
      → ((r : PaperRecord) → key (mark r) ≡ key r)
      → (ps : List PaperRecord) → HasDistinctKeys key ps
      → HasDistinctKeys key (map mark ps)
  HasDistinctKeys-mark key same [] h = h
  HasDistinctKeys-mark key same (p ∷ ps) h = (
    subst (λ k. IsFresh key k (map mark ps)) (sym (same p)) (IsFresh-mark key same (key p) ps h.0),
    HasDistinctKeys-mark key same ps h.1,
  )

  pub AreMatched-mark :
      (cs : List CheckinRecord) (ps : List PaperRecord)
      → AreMatched cs ps
      → AreMatched cs (map mark ps)
  AreMatched-mark cs [] h = h
  AreMatched-mark cs (p ∷ ps) ((c, found, same), others) = (
    (
      c,
      subst (λ s. find (has_seat s) cs ≡ some c) (sym (mark-paper_seat p)) found,
      same ∙ sym (mark-paper_token p),
    ),
    AreMatched-mark cs ps others,
  )

  pub length-mark : (ps : List PaperRecord) → length (map mark ps) ≡ length ps
  length-mark ps = length-map mark ps

-- A row that is found by one test passes another that its key decides.
pub known_token :
    (cs : List CheckinRecord) (seat token_hash : Text) {c : CheckinRecord}
    → find (has_seat seat) cs ≡ some c
    → c.token_hash ≡ token_hash
    → any (has_token token_hash) cs ≡ true
known_token [] seat token_hash h same = absurd cc
known_token (r ∷ cs) seat token_hash {c} h same = elim (Bool-cases (equals r.seat seat)) [
  | inl here ↦
      let e : r ≡ c = cc in
      let held : equals r.token_hash token_hash ≡ true =
        (equals_iff r.token_hash token_hash).1 (ap (λ x. x.token_hash) e ∙ same) in
      rw held refl
  | inr other ↦ let rest = known_token cs seat token_hash (rw other at h) same in ground arith
]
