-- ===== src/Centre/Ledger/Effects.antt =====
-- What an accepted row does to the tables and the log of a centre.
use zero_window.Prelude.{
  ℕ, suc, ◌+◌, subst, length, select, ◌≡◌, refl, sym, ap, ap₂, ◌∙◌, true, false, Text, none, some,
  List, [], ◌∷◌, ◌++◌, map, any, equals, length-append, arith, Bool-cases, inl, inr, ok,
}
use zero_window.Prelude.Search.{find-none, HasDistinctKeys-snoc}
use zero_window.Crypto.Sodium.{Sodium}
use zero_window.Centre.Store.{
  CentreStore, CentreBundleRecord, CheckinRecord, PaperRecord, has_seat, has_token, is_paper_of,
  is_paper_for, put_bundle, put_checkin, put_paper, bundle, checkin_by_token, checkin_by_seat,
  paper, mark_printed, printed, has_bundle_id,
}
use zero_window.Centre.Node.{Outside, CentreOptions, Event}
use zero_window.Centre.Ledger.{
  is_checkin, is_generation, token_key, seat_key, bundle_key, paper_seat, paper_token,
  checkin_event, paper_event, IsConsistent, IsPart,
}
use zero_window.Centre.Ledger.Rows.{
  IsPart-more, IsPart-both, select-other, select-own, map-snoc, AreMatched-checkin,
  AreMatched-paper, no_paper_for, known_token, mark-paper_seat, mark-paper_token,
  HasDistinctKeys-mark, AreMatched-mark, length-mark,
}

module _ (sodium : Sodium) (outside : Outside) (opts : CentreOptions) where
  abbrev Consistent : CentreStore → List Event → ℕ → ℕ → ℕ → Type 0
  Consistent = IsConsistent sodium outside opts

  pub add_event :
      (store : CentreStore) (log : List Event) (n m f : ℕ) (e : Event)
      → is_checkin e ≡ false
      → is_generation e ≡ false
      → Consistent store log n m f
      → Consistent store (log ++ e ∷ []) n m f
  add_event store log n m f e other1 other2
        (b, ct, cs, ps, pt, matched, checkins, papers, counted, made, bound) =
      (
        b,
        ct,
        cs,
        ps,
        pt,
        matched,
        subst (λ es. IsPart es (map (checkin_event sodium outside opts) store.checkins))
            (sym (select-other is_checkin log e other1)) checkins,
        subst (λ es. IsPart es (map (paper_event sodium outside opts) store.papers))
            (sym (select-other is_generation log e other2)) papers,
        counted ∙ ap length (sym (select-other is_checkin log e other1)),
        made ∙ ap length (sym (select-other is_generation log e other2)),
        bound,
      )

  -- An append that throws.
  pub add_failure :
      (store : CentreStore) (log : List Event) (n m f : ℕ)
      → Consistent store log n m f
      → Consistent store log n m (suc f)
  add_failure store log n m f (b, ct, cs, ps, pt, matched, checkins, papers, counted, made, bound) =
      (b, ct, cs, ps, pt, matched, checkins, papers, counted, made, omega arith)

  pub add_bundle :
      (store : CentreStore) (log : List Event) (n m f : ℕ) (r : CentreBundleRecord)
      → bundle r.bundle_id store ≡ none
      → Consistent store log n m f
      → (put_bundle r store ≡ ok (record store { bundles = store.bundles ++ r ∷ [] }))
        × Consistent (record store { bundles = store.bundles ++ r ∷ [] }) log n m f
  unfolding put_bundle bundle
  add_bundle store log n m f r free
        (b, ct, cs, ps, pt, matched, checkins, papers, counted, made, bound) =
      let fresh = find-none (has_bundle_id r.bundle_id) store.bundles free in
      (
        rw fresh refl,
        (
          HasDistinctKeys-snoc bundle_key store.bundles r fresh b,
          ct,
          cs,
          ps,
          pt,
          matched,
          checkins,
          papers,
          counted,
          made,
          bound,
        ),
      )

  -- A row of `checkins`, whether its event is logged and counted or the append throws.
  pub add_checkin :
      (store : CentreStore) (log : List Event) (n m f : ℕ) (r : CheckinRecord)
      → checkin_by_token r.token_hash store ≡ none
      → checkin_by_seat r.seat store ≡ none
      → Consistent store log n m f
      → (put_checkin r store ≡ ok (record store { checkins = store.checkins ++ r ∷ [] }))
        × Consistent
            (record store { checkins = store.checkins ++ r ∷ [] })
            (log ++ checkin_event sodium outside opts r ∷ [])
            (n + 1)
            m
            f
        × Consistent (record store { checkins = store.checkins ++ r ∷ [] }) log n m (suc f)
  unfolding put_checkin checkin_by_token checkin_by_seat
  add_checkin store log n m f r no_token no_seat
        (b, ct, cs, ps, pt, matched, checkins, papers, counted, made, bound) =
      let fresh_token = find-none (has_token r.token_hash) store.checkins no_token in
      let fresh_seat = find-none (has_seat r.seat) store.checkins no_seat in
      let size = length-append store.checkins (r ∷ []) in
      let e = checkin_event sodium outside opts r in
      let events = map (checkin_event sodium outside opts) store.checkins in
      let snoc = map-snoc (checkin_event sodium outside opts) store.checkins r in
      let own = select-own is_checkin log e refl in
      let other = select-other is_generation log e refl in
      let more = length-append (select is_checkin log) (e ∷ []) in
      let tokens = HasDistinctKeys-snoc token_key store.checkins r fresh_token ct in
      let seats = HasDistinctKeys-snoc seat_key store.checkins r fresh_seat cs in
      let owners = AreMatched-checkin store.checkins r store.papers matched in
      (
        rw (fresh_token, fresh_seat) refl,
        (
          b,
          tokens,
          seats,
          ps,
          pt,
          owners,
          subst
              (λ es. IsPart es (map (checkin_event sodium outside opts) (store.checkins ++ r ∷ [])))
              (sym own)
              (subst (IsPart (select is_checkin log ++ e ∷ [])) (sym snoc)
                (IsPart-both (select is_checkin log) events e checkins)),
          subst (λ es. IsPart es (map (paper_event sodium outside opts) store.papers)) (sym other)
              papers,
          omega (arith, ap length own),
          made ∙ ap length (sym other),
          omega arith,
        ),
        (
          b,
          tokens,
          seats,
          ps,
          pt,
          owners,
          subst (IsPart (select is_checkin log)) (sym snoc)
              (IsPart-more (select is_checkin log) events e checkins),
          papers,
          counted,
          made,
          omega arith,
        ),
      )

  pub add_paper :
      (store : CentreStore) (log : List Event) (n m f : ℕ) (p : PaperRecord) {c : CheckinRecord}
      → checkin_by_seat p.seat store ≡ some c
      → c.token_hash ≡ p.token_hash
      → paper p.seat store ≡ none
      → Consistent store log n m f
      → (put_paper p store ≡ ok (record store { papers = store.papers ++ p ∷ [] }))
        × Consistent
            (record store { papers = store.papers ++ p ∷ [] })
            (log ++ paper_event sodium outside opts p ∷ [])
            n
            (m + 1)
            f
        × Consistent (record store { papers = store.papers ++ p ∷ [] }) log n m (suc f)
  unfolding put_paper checkin_by_seat paper
  add_paper store log n m f p {c} found same free
        (b, ct, cs, ps, pt, matched, checkins, papers, counted, made, bound) =
      let fresh_seat = find-none (is_paper_of p.seat) store.papers free in
      let fresh_token : any (is_paper_for p.token_hash) store.papers ≡ false =
        rw same at
          (no_paper_for store.checkins store.papers p.seat c ct matched found fresh_seat) in
      let known : any (has_token p.token_hash) store.checkins ≡ true =
        known_token store.checkins p.seat p.token_hash found same in
      let size = length-append store.papers (p ∷ []) in
      let e = paper_event sodium outside opts p in
      let events = map (paper_event sodium outside opts) store.papers in
      let snoc = map-snoc (paper_event sodium outside opts) store.papers p in
      let own = select-own is_generation log e refl in
      let other = select-other is_checkin log e refl in
      let more = length-append (select is_generation log) (e ∷ []) in
      let seats = HasDistinctKeys-snoc paper_seat store.papers p fresh_seat ps in
      let tokens = HasDistinctKeys-snoc paper_token store.papers p fresh_token pt in
      let owners = AreMatched-paper store.checkins store.papers p found same matched in
      (
        rw (fresh_seat, fresh_token, known) refl,
        (
          b,
          ct,
          cs,
          seats,
          tokens,
          owners,
          subst (λ es. IsPart es (map (checkin_event sodium outside opts) store.checkins))
              (sym other) checkins,
          subst (λ es. IsPart es (map (paper_event sodium outside opts) (store.papers ++ p ∷ [])))
              (sym own)
              (subst (IsPart (select is_generation log ++ e ∷ [])) (sym snoc)
                (IsPart-both (select is_generation log) events e papers)),
          counted ∙ ap length (sym other),
          omega (arith, ap length own),
          omega arith,
        ),
        (
          b,
          ct,
          cs,
          seats,
          tokens,
          owners,
          checkins,
          subst (IsPart (select is_generation log)) (sym snoc)
              (IsPart-more (select is_generation log) events e papers),
          counted,
          made,
          omega arith,
        ),
      )

  same_events :
      (seat : Text) (at : ℕ) (printer_id job_ref transport : Text) (ps : List PaperRecord)
      → map
          (paper_event sodium outside opts)
          (map (printed seat at printer_id job_ref transport) ps)
        ≡ map (paper_event sodium outside opts) ps
  same_events seat at printer_id job_ref transport [] = refl
  same_events seat at printer_id job_ref transport (p ∷ ps) =
      ap₂ (λ e es. e ∷ es)
        (elim (Bool-cases (equals p.seat seat)) [ inl e ↦ rw e refl | inr e ↦ rw e refl ])
        (same_events seat at printer_id job_ref transport ps)

  pub mark_paper :
      (store : CentreStore) (log : List Event) (n m f : ℕ) (seat : Text) (at : ℕ)
      (printer_id job_ref transport : Text)
      → Consistent store log n m f
      → Consistent (mark_printed seat at printer_id job_ref transport store) log n m f
  unfolding mark_printed
  mark_paper store log n m f seat at printer_id job_ref transport
        (b, ct, cs, ps, pt, matched, checkins, papers, counted, made, bound) =
      let size = length-mark seat at printer_id job_ref transport store.papers in
      (
        b,
        ct,
        cs,
        HasDistinctKeys-mark seat at printer_id job_ref transport paper_seat
            (mark-paper_seat seat at printer_id job_ref transport) store.papers ps,
        HasDistinctKeys-mark seat at printer_id job_ref transport paper_token
            (mark-paper_token seat at printer_id job_ref transport) store.papers pt,
        AreMatched-mark seat at printer_id job_ref transport store.checkins store.papers matched,
        checkins,
        subst (IsPart (select is_generation log))
            (sym (same_events seat at printer_id job_ref transport store.papers)) papers,
        counted,
        made,
        omega arith,
      )
