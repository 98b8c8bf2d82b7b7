-- ===== src/Centre/Print/Failover.antt =====
-- packages/centre/src/print.ts: which printer a job comes off, and what is reported of the others.
use zero_window.Prelude.{
  ◌≡◌, refl, sym, ap, ◌∙◌, ◌⊎◌, inl, inr, Bytes, Text, none, some, List, [], ◌∷◌, ◌++◌,
  append_assoc, append-nil, Result, ok, err, Option-cases, Result-cases,
}
use zero_window.Centre.Print.{
  PrintRoom, PrintResult, PrintFailure, all_failed, spool_failed, report_failed, FailedOver,
  Failure, ipp, spool_dir, print_from, print,
}

module _ {S E : Type 0} (report : FailedOver → S → Result E (Unit {0}) × S) (room : PrintRoom)
    (pdf : Bytes) (job_name : Text) where
  -- These printers refuse the job, for the reasons that these failures give.
  abbrev pub AreFailed : List Text → List FailedOver → Type 0
  AreFailed [] [] = Unit
  AreFailed [] (f ∷ fs) = ⊥
  AreFailed (id ∷ ids) [] = ⊥
  AreFailed (id ∷ ids) (f ∷ fs) =
      (f.printer_id ≡ id) × (room.print_via_ipp id pdf job_name ≡ err f.failure) × AreFailed ids fs

  -- These failures are reported one after the other, and no report throws.
  abbrev pub AreReported : List FailedOver → S → S → Type 0
  AreReported [] s s' = s ≡ s'
  AreReported (f ∷ fs) s s' = (t : S) × (report f s ≡ (ok tt, t)) × AreReported fs t s'

  abbrev pub IsOutcome :
      List Text
      → List FailedOver
      → List FailedOver
      → S
      → S
      → Result (PrintFailure E) PrintResult
      → Type 0
  IsOutcome printers earlier failed s s' (ok result) =
      AreReported failed s s'
      × (result.failed_over ≡ earlier ++ failed)
      × (((before : List Text) × (rest : List Text) × (printers
              ≡ before ++ result.printer_id ∷ rest)
            × AreFailed before failed
            × (result.transport ≡ ipp)
            × (room.print_via_ipp result.printer_id pdf job_name ≡ ok result.job_ref))
          ⊎ (AreFailed printers failed
              × (result.transport ≡ spool_dir)
              × ((write : Bytes → Text → Result Text Text) × (room.spool ≡ some write)
                  × (write pdf job_name ≡ ok result.job_ref))))
  IsOutcome printers earlier failed s s' (err (all_failed attempts)) =
      AreReported failed s s'
      × AreFailed printers failed
      × (room.spool ≡ none)
      × (attempts ≡ earlier ++ failed)
  IsOutcome printers earlier failed s s' (err (spool_failed reason)) =
      AreReported failed s s'
      × AreFailed printers failed
      × ((write : Bytes → Text → Result Text Text) × (room.spool ≡ some write)
          × (write pdf job_name ≡ err reason))
  IsOutcome printers earlier failed s s' (err (report_failed e)) =
      (before : List Text) × (id : Text) × (rest : List Text) × (f : Failure) × (t : S) × (printers
        ≡ before ++ id ∷ rest)
      × AreFailed before failed
      × AreReported failed s t
      × (room.print_via_ipp id pdf job_name ≡ err f)
      × (report (record { printer_id = id; failure = f }) t ≡ (err e, s'))

  -- A printer that fails before these, and is reported, does not change what comes after.
  IsOutcome-after :
      (id : Text) (f : Failure) (ids : List Text) (earlier failed : List FailedOver) (s t s' : S)
      (answer : Result (PrintFailure E) PrintResult)
      → room.print_via_ipp id pdf job_name ≡ err f
      → report (record { printer_id = id; failure = f }) s ≡ (ok tt, t)
      → IsOutcome ids (earlier ++ record { printer_id = id; failure = f } ∷ []) failed t s' answer
      → IsOutcome (id ∷ ids) earlier (record { printer_id = id; failure = f } ∷ failed) s s' answer
  IsOutcome-after id f ids earlier failed s t s' (ok result) lost told
        (all, reported, inl (before, rest, split, refused, by, done)) =
      (
        (t, told, all),
        reported ∙ append_assoc earlier (record { printer_id = id; failure = f } ∷ []) failed,
        inl (id ∷ before, rest, ap (λ l. id ∷ l) split, (refl, lost, refused), by, done),
      )
  IsOutcome-after id f ids earlier failed s t s' (ok result) lost told
        (all, reported, inr (refused, by, written)) =
      (
        (t, told, all),
        reported ∙ append_assoc earlier (record { printer_id = id; failure = f } ∷ []) failed,
        inr ((refl, lost, refused), by, written),
      )
  IsOutcome-after id f ids earlier failed s t s' (err (all_failed attempts)) lost told
        (all, refused, no_spool, reported) =
      (
        (t, told, all),
        (refl, lost, refused),
        no_spool,
        reported ∙ append_assoc earlier (record { printer_id = id; failure = f } ∷ []) failed,
      )
  IsOutcome-after id f ids earlier failed s t s' (err (spool_failed reason)) lost told
        (all, refused, written) =
      ((t, told, all), (refl, lost, refused), written)
  IsOutcome-after id f ids earlier failed s t s' (err (report_failed e)) lost told
        (before, id', rest, f', u, split, refused, all, lost', threw) =
      (
        id ∷ before,
        id',
        rest,
        f',
        u,
        ap (λ l. id ∷ l) split,
        (refl, lost, refused),
        (t, told, all),
        lost',
        threw,
      )

  abbrev pub HasOutcome :
      List Text → List FailedOver → S → Result (PrintFailure E) PrintResult × S → Type 0
  HasOutcome printers earlier s out =
      (failed : List FailedOver) × IsOutcome printers earlier failed s out.1 out.0

  print_from-HasOutcome :
      (printers : List Text) (earlier : List FailedOver) (s : S)
      → HasOutcome printers earlier s (print_from report room pdf job_name earlier printers s)
  unfolding print_from
  print_from-HasOutcome [] earlier s = elim (Option-cases room.spool) [
    | inl no_spool ↦ rw (no_spool, print_from) ([], (refl, tt, refl, sym (append-nil earlier)))
    | inr (write, configured) ↦ elim (Result-cases (write pdf job_name)) [
      | inl (file, written) ↦
          rw (configured, written, print_from)
            ([], (refl, sym (append-nil earlier), inr (tt, refl, (write, refl, written))))
      | inr (reason, threw) ↦
          rw (configured, threw, print_from) ([], (refl, tt, (write, refl, threw)))
    ]
  ]
  print_from-HasOutcome (id ∷ ids) earlier s =
      elim (Result-cases (room.print_via_ipp id pdf job_name)) [
        | inl (job_ref, done) ↦
            rw (done, print_from)
              ([], (refl, sym (append-nil earlier), inl ([], ids, refl, tt, refl, done)))
        | inr (f, lost) ↦
            let over : FailedOver = record { printer_id = id; failure = f } in
            elim (Result-cases (report over s).0) [
              | inr (e, threw) ↦
                  rw (lost, threw, print_from)
                    (
                      [],
                      (
                        [],
                        id,
                        ids,
                        f,
                        s,
                        refl,
                        tt,
                        refl,
                        lost,
                        ap (λ r. (r, (report over s).1)) threw,
                      ),
                    )
              | inl (u, told) ↦
                  let next = print_from-HasOutcome ids (earlier ++ over ∷ []) (report over s).1 in
                  rw (lost, told, print_from)
                    (
                      over ∷ next.0,
                      IsOutcome-after id f ids earlier next.0 s (report over s).1 _ _ lost
                          (ap (λ r. (r, (report over s).1)) told) next.1,
                    )
            ]
      ]

  -- A job comes off the first printer, in the order configured, that takes it, or off the spool
  -- directory when all refuse and writing to it succeeds; `PrintError` is thrown when all refuse
  -- and no directory is configured, the error of the writing when that fails, and what `onFailover`
  -- throws as soon as it throws, with no printer tried after. In each case the printers that
  -- refused before are reported one after the other, in order and with their reasons, and the result
  -- or the `PrintError` carries the same list.
  pub print-IsOutcome : (s : S) → HasOutcome room.printers [] s (print report room pdf job_name s)
  unfolding print
  print-IsOutcome s = print_from-HasOutcome room.printers [] s
