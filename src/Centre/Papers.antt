-- ===== src/Centre/Papers.antt =====
-- packages/centre/src/centre.ts: generation and printing of papers at T-0, and the close of the exam.
use zero_window.Prelude.{
  ℕ, ◌+◌, Bool, true, false, not, Bytes, Text, none, some, List, [], ◌∷◌, ◌++◌, length, select,
  take, equals, if◌then◌else◌, Result, ok, err,
}
use zero_window.Encoding.{to_hex}
use zero_window.Crypto.Sodium.{Sodium}
use zero_window.Crypto.Hash.{codes, domain_hash}
use zero_window.Crypto.KekEngine.{destroy, close, KekEngine}
use zero_window.Log.Canonical.{Fields, end}
use zero_window.Log.Types.{paper_generated, paper_printed, printer_failover, exam_closed}
use zero_window.Centre.Store.{
  CheckinRecord, PaperRecord, bundle, checkin_by_seat, checkins_by_seat, put_paper, mark_printed,
  paper,
}
use zero_window.Centre.Print.{
  PrintResult, PrintFailure, all_failed, spool_failed, report_failed, FailedOver, print,
  transport_name,
}
use zero_window.Centre.Node.{
  Outside, CentreOptions, CentreNode, CentreError, Outcome, then_do, log_event, text_field,
  number_field, held_kek, paper_bundle_id, not_checked_in, already_generated, bundle_unknown,
  kek_not_held, not_generated, seat_mismatch, store_failed, printing_failed, spooling_failed,
}
use zero_window.Centre.ExamDay.{Generated, here, make_paper, paper_record, paper_payload}

pub record SeatFailure : Type 0 where
  pub seat : Text
  pub error : CentreError

pub record T0Report : Type 0 where
  pub printed : ℕ
  pub failures : List SeatFailure

abbrev pub is_printed : PaperRecord → Bool
is_printed r = elim r.printed_at [ none ↦ false | some at ↦ true ]

module _ (sodium : Sodium) (outside : Outside) (opts : CentreOptions) where
  abbrev pub keep_paper : PaperRecord → Bytes → CentreNode → Outcome Generated
  keep_paper r pdf node = elim (put_paper r node.store) [
    | err e ↦ (err (store_failed e), node)
    | ok store ↦
        then_do
          (log_event outside paper_generated (paper_payload sodium outside opts r) r.generated_at
            (record node { store = store }))
          (λ _ node. (
            ok (record { pdf = pdf; paper_hash = r.paper_hash }),
            record node { papers_generated = node.papers_generated + 1 },
          ))
  ]

  unfoldable pub generate_paper : (seat : Text) → (at : ℕ) → CentreNode → Outcome Generated
  unfolding checkin_by_seat paper bundle held_kek make_paper put_paper
  generate_paper seat at node = elim (checkin_by_seat seat node.store) [
    | none ↦ (err not_checked_in, node)
    | some checkin ↦ elim (paper seat node.store) [
      | some old ↦ (err already_generated, node)
      | none ↦ elim (bundle (paper_bundle_id sodium outside opts) node.store) [
        | none ↦ (err bundle_unknown, node)
        | some b ↦ elim (held_kek (paper_bundle_id sodium outside opts) node.held_keks) [
          | none ↦ (err kek_not_held, node)
          | some kek_id ↦ elim (make_paper sodium outside opts b kek_id seat checkin node.engine) [
            | err e ↦ (err e, node)
            | ok r ↦ keep_paper (paper_record sodium outside opts seat checkin r at) r.pdf node
          ]
        ]
      ]
    ]
  ]

  -- `onFailover`; `reason.slice(0, 200)`.
  unfoldable pub log_failover : FailedOver → CentreNode → Outcome (Unit {0})
  log_failover f =
      log_event outside printer_failover
        (here sodium outside opts (
          text_field (codes "printer_id") f.printer_id
            (text_field (codes "reason") (take 200 f.failure.reason) end)))
        f.failure.at

  -- What `PrintService.print` throws, as the node's callers see it.
  abbrev pub print_error : PrintFailure CentreError → CentreError
  print_error (all_failed attempts) = printing_failed attempts
  print_error (spool_failed reason) = spooling_failed reason
  print_error (report_failed e) = e

  abbrev pub printed_payload : PaperRecord → PrintResult → Fields
  printed_payload r result = here sodium outside opts (
      text_field (codes "seat") r.seat (
        text_field (codes "paper_hash") r.paper_hash (
          text_field (codes "printer_id") result.printer_id (
            text_field (codes "ipp_job_id") result.job_ref
              (text_field (codes "transport") (transport_name result.transport) end)))))

  unfoldable pub print_paper : (seat : Text) → (pdf : Bytes) → (at : ℕ) → CentreNode → Outcome Unit
  unfolding paper domain_hash to_hex print mark_printed log_failover
  print_paper seat pdf at node = elim (paper seat node.store) [
    | none ↦ (err not_generated, node)
    | some r ↦ elim opts.print_room [
      | none ↦ (err not_generated, node)
      | some room ↦
          if not (equals (to_hex (domain_hash sodium (codes "paper-pdf") (pdf ∷ []))) r.paper_hash)
          then (err seat_mismatch, node)
          else let (answer, after) =
              print log_failover room pdf (opts.exam_id ++ codes " " ++ seat) node in
            elim answer [
              | err e ↦ (err (print_error e), after)
              | ok result ↦
                  log_event outside paper_printed (printed_payload r result) at (record after {
                    store =
                        mark_printed seat at result.printer_id result.job_ref
                          (transport_name result.transport) after.store;
                  })
            ]
    ]
  ]

  -- One round of `runT0`: generate, then print what was generated, at these times.
  unfoldable pub serve_seat :
      (seat : Text) → (generated_at printed_at : ℕ) → CentreNode → Outcome Unit
  unfolding generate_paper print_paper
  serve_seat seat generated_at printed_at node =
      let (answer, after) = generate_paper seat generated_at node in
      elim answer [ err e ↦ (err e, after) | ok g ↦ print_paper seat g.pdf printed_at after ]

  abbrev pub count_seat : Text → Result CentreError Unit → T0Report → T0Report
  count_seat seat (ok u) report = record report { printed = report.printed + 1 }
  count_seat seat (err e) report = record report {
    failures = report.failures ++ record { seat = seat; error = e } ∷ [];
  }

  unfoldable pub serve_all :
      List CheckinRecord → (clock : Text → ℕ × ℕ) → T0Report → CentreNode → T0Report × CentreNode
  unfolding serve_seat
  serve_all [] clock report node = (report, node)
  serve_all (c ∷ cs) clock report node =
      let (answer, after) = serve_seat c.seat (clock c.seat).0 (clock c.seat).1 node in
      serve_all cs clock (count_seat c.seat answer report) after

  unfoldable pub run_t0 : (clock : Text → ℕ × ℕ) → CentreNode → T0Report × CentreNode
  unfolding serve_all checkins_by_seat
  run_t0 clock node =
      serve_all (checkins_by_seat node.store) clock (record { printed = 0; failures = [] }) node

  abbrev pub discard_all : List (Text × Text) → KekEngine → KekEngine
  discard_all [] engine = engine
  discard_all ((bundle_id, kek_id) ∷ held) engine = discard_all held (destroy kek_id engine)

  abbrev pub closed_payload : CentreNode → Fields
  closed_payload node = here sodium outside opts (
      number_field (codes "candidates") (length node.store.checkins)
        (number_field (codes "papers_printed") (length (select is_printed node.store.papers)) end))

  unfoldable pub close_exam : (at : ℕ) → CentreNode → Outcome Unit
  unfolding destroy
  close_exam at node =
      then_do (log_event outside exam_closed (closed_payload node) at node) (λ _ node.
        (ok tt, record node { held_keks = []; engine = discard_all node.held_keks node.engine }))

  -- `CentreNode.close`: the provider's close destroys what it still holds.
  unfoldable pub close_node : CentreNode → CentreNode
  unfolding destroy close
  close_node node = record node {
    held_keks = [];
    engine = close (discard_all node.held_keks node.engine);
  }
