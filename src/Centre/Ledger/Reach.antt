-- ===== src/Centre/Ledger/Reach.antt =====
-- packages/centre/src/centre.ts: printing, T-0 and the close keep the tables and the log consistent,
-- and so does every sequence of calls.
use zero_window.Prelude.{
  ℕ, ◌≡◌, ◌≢◌, refl, arith, Result, ap, ◌∙◌, Bytes, Text, Option, List, [], ◌∷◌, ◌++◌, equals,
  err-injective, Bool-cases, Option-cases, Result-cases, inl, inr, err,
}
use zero_window.Encoding.{to_hex}
use zero_window.Crypto.Sodium.{Sodium}
use zero_window.Crypto.Hash.{codes, domain_hash}
use zero_window.Log.Types.{exam_closed}
use zero_window.Centre.Print.{
  PrintRoom, PrintFailure, all_failed, spool_failed, report_failed, FailedOver, print_from, print,
  transport_name,
}
use zero_window.Centre.Store.{
  mark_printed, PaperRecord, CheckinRecord, StoreError, paper, checkins_by_seat,
}
use zero_window.Centre.Node.{
  Outside, CentreOptions, CentreNode, CentreError, Outcome, ExpectedBundle, receive_bundle,
  store_failed,
}
use zero_window.Centre.ExamDay.{check_in}
use zero_window.Centre.Papers.{
  T0Report, generate_paper, print_paper, log_failover, print_error, serve_seat, serve_all, run_t0,
  count_seat, closed_payload, close_exam, close_node,
}
use zero_window.Centre.Ledger.{
  IsSound, RecordsCheckin, RecordsPaper, checkin_event, paper_event, Call, Calls, opened, after,
  called_receive_bundle, called_receive_wrapped_kek, called_receive_offline_medium, called_check_in,
  called_generate_paper, called_print_paper, called_run_t0, called_close_exam, called_close_node,
}
use zero_window.Centre.Ledger.Effects.{add_event, add_failure, mark_paper}
use zero_window.Centre.Ledger.Appends.{IsFine, log_event-IsFine, log_event_cases}
use zero_window.Centre.Ledger.Day.{generate_paper-Fine}
use zero_window.Authority.Admit.{AdmitToken}
use zero_window.Centre.Ledger.Custody.{
  receive_bundle-IsFine, receive_wrapped_kek-IsFine, receive_offline_medium-IsFine, check_in-IsFine,
}

module _ (sodium : Sodium) (outside : Outside) (opts : CentreOptions) where
  abbrev Sound : CentreNode → Type 0
  Sound = IsSound sodium outside opts

  abbrev Fine : {A : Type 0} → Outcome A → Type 0
  Fine out = IsFine sodium outside opts out

  log_failover-Fine :
      (f : FailedOver) (node : CentreNode)
      → Sound node
      → Fine (log_failover sodium outside opts f node)
  unfolding log_failover
  log_failover-Fine f node sound =
      log_event-IsFine sodium outside opts _ _ f.failure.at node refl refl sound

  -- Reporting failovers keeps the tables and the log consistent, wherever the printing ends.
  print_from-Sound :
      (room : PrintRoom) (pdf : Bytes) (job_name : Text) (failed : List FailedOver)
      (printers : List Text) (node : CentreNode)
      → Sound node
      → (Sound
          (print_from (log_failover sodium outside opts) room pdf job_name failed printers node).1)
        × ((e : CentreError)
            → (print_from
                (log_failover sodium outside opts)
                room
                pdf
                job_name
                failed
                printers
                node).0
              ≡ err (report_failed e)
            → (e1 : StoreError) → e ≢ store_failed e1)
  unfolding print_from log_failover
  print_from-Sound room pdf job_name failed [] node sound = elim (Option-cases room.spool) [
    | inl no_spool ↦ rw (no_spool, print_from) (sound, λ e q. absurd cc)
    | inr (write, configured) ↦ elim (Result-cases (write pdf job_name)) [
      | inl (file, written) ↦ rw (configured, written, print_from) (sound, λ e q. absurd cc)
      | inr (reason, threw) ↦ rw (configured, threw, print_from) (sound, λ e q. absurd cc)
    ]
  ]
  print_from-Sound room pdf job_name failed (id ∷ ids) node sound =
      elim (Result-cases (room.print_via_ipp id pdf job_name)) [
        | inl (job_ref, done) ↦ rw (done, print_from) (sound, λ e q. absurd cc)
        | inr (f, lost) ↦
            let over : FailedOver = record { printer_id = id; failure = f } in
            let (kept, no_store) = log_failover-Fine over node sound in
            elim (Result-cases (log_failover sodium outside opts over node).0) [
              | inl (u, told) ↦
                  rw (lost, told, print_from)
                    (print_from-Sound room pdf job_name (failed ++ over ∷ []) ids
                      (log_failover sodium outside opts over node).1 kept)
              | inr (e, threw) ↦
                  rw (lost, threw, print_from)
                    (kept, λ e' q e1 same. no_store e1 (threw ∙ ap err cc))
            ]
      ]

  -- The error of a print is no constraint, unless a report threw one.
  print_error-no_store :
      (failure : PrintFailure CentreError) (e1 : StoreError)
      → ((e : CentreError) → failure ≡ report_failed e → e ≢ store_failed e1)
      → ◌≢◌ {A = Result CentreError (Unit {0})}
          (err (print_error sodium outside opts failure))
          (err (store_failed e1))
  print_error-no_store (all_failed attempts) e1 h q = absurd cc
  print_error-no_store (spool_failed reason) e1 h q = absurd cc
  print_error-no_store (report_failed e) e1 h q = h e refl (err-injective q)

  print_paper-Fine :
      (seat : Text) (pdf : Bytes) (at : ℕ) (node : CentreNode)
      → Sound node
      → Fine (print_paper sodium outside opts seat pdf at node)
  unfolding print_paper print
  print_paper-Fine seat pdf at node sound = elim (Option-cases (paper seat node.store)) [
    | inl absent ↦ rw (absent, print_paper) (sound, λ e q. absurd cc)
    | inr (r, present) ↦ elim (Option-cases opts.print_room) [
      | inl no_room ↦ rw (present, no_room, print_paper) (sound, λ e q. absurd cc)
      | inr (room, configured) ↦
          elim (Bool-cases
            (equals (to_hex (domain_hash sodium (codes "paper-pdf") (pdf ∷ []))) r.paper_hash)) [
              | inr differs ↦
                  rw (present, configured, differs, print_paper) (sound, λ e q. absurd cc)
              | inl agrees ↦
                  let job = opts.exam_id ++ codes " " ++ seat in
                  let out =
                    print_from (log_failover sodium outside opts) room pdf job [] room.printers
                      node in
                  let later = out.1 in
                  let (kept, no_store) =
                    print_from-Sound room pdf job [] room.printers node sound in
                  elim (Result-cases out.0) [
                    | inr (failure, lost) ↦
                        rw (present, configured, agrees, lost, print_paper, print)
                          (
                            kept,
                            λ e1 q.
                                print_error-no_store failure e1
                                  (λ e same. no_store e (lost ∙ ap err same) e1) q,
                          )
                    | inl (result, done) ↦
                        rw (present, configured, agrees, done, print_paper, print)
                          (log_event-IsFine sodium outside opts _ _ at
                            (record later {
                              store =
                                  mark_printed seat at result.printer_id result.job_ref
                                    (transport_name result.transport) later.store;
                            })
                            refl refl
                            (mark_paper sodium outside opts later.store later.log
                              later.checkins_total later.papers_generated later.failed_appends seat
                              at result.printer_id result.job_ref (transport_name result.transport)
                              kept))
                  ]
            ]
    ]
  ]

  close_exam-Fine :
      (at : ℕ) (node : CentreNode) → Sound node → Fine (close_exam sodium outside opts at node)
  unfolding close_exam
  close_exam-Fine at node sound =
      elim (log_event_cases outside exam_closed (closed_payload sodium outside opts node) at node) [
        | inl works ↦
            rw (works, close_exam)
              (
                add_event sodium outside opts node.store node.log node.checkins_total
                    node.papers_generated node.failed_appends _ refl refl sound,
                λ e q. absurd cc,
              )
        | inr throws ↦
            rw (throws, close_exam)
              (
                add_failure sodium outside opts node.store node.log node.checkins_total
                    node.papers_generated node.failed_appends sound,
                λ e q. absurd cc,
              )
      ]

  serve_seat-Fine :
      (seat : Text) (generated_at printed_at : ℕ) (node : CentreNode)
      → Sound node
      → Fine (serve_seat sodium outside opts seat generated_at printed_at node)
  unfolding serve_seat
  serve_seat-Fine seat generated_at printed_at node sound =
      let (kept, no_store) = generate_paper-Fine sodium outside opts seat generated_at node sound in
      elim (Result-cases (generate_paper sodium outside opts seat generated_at node).0) [
        | inr (e, failed) ↦
            rw (failed, serve_seat) (kept, λ e1 q. no_store e1 (failed ∙ ap err (err-injective q)))
        | inl (g, made) ↦
            rw (made, serve_seat)
              (print_paper-Fine seat g.pdf printed_at
                (generate_paper sodium outside opts seat generated_at node).1 kept)
      ]

  serve_all-Sound :
      (cs : List CheckinRecord) (clock : Text → ℕ × ℕ) (report : T0Report) (node : CentreNode)
      → Sound node
      → Sound (serve_all sodium outside opts cs clock report node).1
  unfolding serve_all
  serve_all-Sound [] clock report node sound = sound
  serve_all-Sound (c ∷ cs) clock report node sound =
      let served = serve_seat sodium outside opts c.seat (clock c.seat).0 (clock c.seat).1 node in
      serve_all-Sound cs clock (count_seat sodium outside opts c.seat served.0 report) served.1
        (serve_seat-Fine c.seat (clock c.seat).0 (clock c.seat).1 node sound).0

  Call-Sound :
      {node node' : CentreNode} → Call sodium outside opts node node' → Sound node → Sound node'
  unfolding run_t0 close_node
  Call-Sound (called_receive_bundle {node = node} envelope expected at) sound =
      (receive_bundle-IsFine sodium outside opts envelope expected at node sound).0
  Call-Sound (called_receive_wrapped_kek {node = node} bundle_id sealed at) sound =
      (receive_wrapped_kek-IsFine sodium outside opts bundle_id sealed at node sound).0
  Call-Sound (called_receive_offline_medium {node = node} medium at) sound =
      (receive_offline_medium-IsFine sodium outside opts medium at node sound).0
  Call-Sound (called_check_in {node = node} token now at) sound =
      (check_in-IsFine sodium outside opts token now at node sound).0
  Call-Sound (called_generate_paper {node = node} seat at) sound =
      (generate_paper-Fine sodium outside opts seat at node sound).0
  Call-Sound (called_print_paper {node = node} seat pdf at) sound =
      (print_paper-Fine seat pdf at node sound).0
  Call-Sound (called_run_t0 {node = node} clock) sound =
      serve_all-Sound (checkins_by_seat node.store) clock (record { printed = 0; failures = [] })
        node sound
  Call-Sound (called_close_exam {node = node} at) sound = (close_exam-Fine at node sound).0
  Call-Sound called_close_node sound = sound

  Calls-Sound : (node : CentreNode) → Calls sodium outside opts node → Sound node
  Calls-Sound node opened = (tt, tt, tt, tt, tt, tt, tt, tt, refl, refl, omega arith)
  Calls-Sound node (after {node = before} calls call) = Call-Sound call (Calls-Sound before calls)

  -- After any sequence of calls on a new node, one after the other, whether they succeed or fail: no
  -- bundle id, token or seat occurs twice, nor a seat or token among the papers; each paper is that
  -- of the candidate checked in at its seat; every check-in event of the log is that of a row of the
  -- check-ins, one each and in their order, every generation event that of a row of the papers; the
  -- two counters count these events; and there are at most as many rows without an event as appends
  -- to the log that threw. By the keys of its payload, an event names the exam, the centre, and the
  -- seat and token hash of its row, that of a paper also its hashes and number of pages.
  pub Calls-IsSound :
      (node : CentreNode)
      → Calls sodium outside opts node
      → IsSound sodium outside opts node
        × ((r : CheckinRecord)
            → RecordsCheckin sodium outside opts r (checkin_event sodium outside opts r))
        × ((r : PaperRecord)
            → RecordsPaper sodium outside opts r (paper_event sodium outside opts r))
  unfolding equals
  Calls-IsSound node calls = (
    Calls-Sound node calls,
    (λ r. (refl, refl, refl, refl, refl, refl)),
    (λ r. (refl, refl, refl, refl, refl, refl, refl, refl, refl)),
  )

  -- After any sequence of calls on a new node, no call can break a constraint of the schema: the
  -- guards of `checkIn`, `generatePaper` and `receiveBundle` refuse first.
  pub Calls-no_constraint :
      (node : CentreNode)
      → Calls sodium outside opts node
      → (e : StoreError)
      → ((envelope : Bytes) (expected : ExpectedBundle) (at : ℕ)
          → (receive_bundle sodium outside opts envelope expected at node).0 ≢ err (store_failed e))
        × ((token : Option AdmitToken) (now at : ℕ)
            → (check_in sodium outside opts token now at node).0 ≢ err (store_failed e))
        × ((seat : Text) (at : ℕ)
            → (generate_paper sodium outside opts seat at node).0 ≢ err (store_failed e))
        × ((seat : Text) (generated_at printed_at : ℕ)
            → (serve_seat sodium outside opts seat generated_at printed_at node).0
              ≢ err (store_failed e))
  Calls-no_constraint node calls e =
      let sound = Calls-Sound node calls in
      (
        (λ envelope expected at.
            (receive_bundle-IsFine sodium outside opts envelope expected at node sound).1 e),
        (λ token now at. (check_in-IsFine sodium outside opts token now at node sound).1 e),
        (λ seat at. (generate_paper-Fine sodium outside opts seat at node sound).1 e),
        (λ seat generated_at printed_at.
            (serve_seat-Fine seat generated_at printed_at node sound).1 e),
      )
