-- ===== src/Tests/Centre.antt =====
-- A centre that takes a bundle in custody, receives its key, admits a candidate and prints a paper.
use zero_window.Prelude.{
  ℕ, false, ◌≤◌, ◌≡◌, ◌≢◌, ◌↔◌, refl, Bytes, Text, none, some, [], ◌∷◌, ◌++◌, length, if◌then◌else◌,
  Result, ok, err, arith, equals, ◌==◌,
}
use zero_window.Prelude.Sort.{precedes}
use zero_window.Encoding.{to_hex}
use zero_window.Crypto.Hash.{codes, domain_hash}
use zero_window.Crypto.Aead.{Ciphers, AeadCiphertext, serialize_aead, parse_aead}
use zero_window.Crypto.Aead.Envelope.{parse_aead_iff}
use zero_window.Crypto.KekEngine.{fingerprint_of}
use zero_window.Authority.Admit.{
  AdmitToken, IssueAdmitTokenOptions, Expected, issue_admit_token, verify_admit_token,
  admit_token_hash,
}
use zero_window.Authority.Admit.Verdicts.{
  IsAdmissible, verify_admit_token_iff, verify_admit_token-issue_admit_token,
}
use zero_window.Centre.Print.{PrintRoom, PrintResult, PrintFailure, report_failed, print}
use zero_window.Centre.Store.{CheckinRecord, PaperRecord, constraint_violated, paper_bundle}
use zero_window.Centre.Node.{
  Outside, CentreOptions, CentreNode, ExpectedBundle, CentreError, Outcome, log_failed,
  duplicate_checkin, log_event, receive_bundle, receive_wrapped_kek, store_failed,
}
use zero_window.Centre.ExamDay.{Generated, Admitted, check_in}
use zero_window.Centre.Papers.{run_t0, log_failover, generate_paper, serve_seat, T0Report}
use zero_window.Centre.Ledger.{
  IsSound, RecordsCheckin, RecordsPaper, checkin_event, paper_event, Calls, new_node, opened, after,
  called_receive_bundle, called_receive_wrapped_kek, called_check_in, called_run_t0,
}
use zero_window.Centre.Ledger.Reach.{Calls-IsSound, Calls-no_constraint}
use zero_window.Centre.Ledger.Release.{IsGenerated, generate_paper_ok}
use zero_window.Centre.Print.Failover.{HasOutcome, print-IsOutcome}
use zero_window.Crypto.Share.{
  ShamirShare, serialize_share, parse_share, parse_share-serialize_share,
}
use zero_window.Tests.Toy.{toy, toy_laws, fit}
use zero_window.Tests.Papers.{content, run_papers}

abbrev pub ciphers : Ciphers
ciphers = record {
  xchacha20poly1305_decrypt = λ ct ad nonce key. some ct;
  xchacha20poly1305_encrypt = λ plain ad nonce key. plain;
}

abbrev outside : Outside
outside = record {
  ciphers = ciphers;
  open_box = λ sealed. some sealed;
  parse_content = λ plain. some content;
  draw_pdf = λ p hash. (codes "%PDF" ++ hash, 1);
  append_throws = λ n. false;
}

-- The first printer refuses every job.
abbrev room : PrintRoom
room = record {
  printers = codes "A" ∷ codes "B" ∷ [];
  print_via_ipp = λ printer pdf job.
      if equals printer (codes "A")
      then err (record { reason = codes "offline"; at = 101 })
      else ok (codes "7");
  spool = none;
}

abbrev centre : CentreOptions
centre = record {
  centre_id = codes "C";
  exam_id = codes "E";
  authority_public_key = toy.public_key (5 ∷ []);
  print_room = some room;
  tries = 5;
}

abbrev issue : IssueAdmitTokenOptions
issue = record {
  exam_id = codes "E";
  centre_id = codes "C";
  seat = codes "A1";
  registration_hash = 9 ∷ [];
  expires_at = 100;
}

run_centre : Unit {0}
unfolding run_papers issue_admit_token check_in receive_bundle receive_wrapped_kek run_t0
    fingerprint_of precedes serialize_aead parse_aead log_event print log_failover
run_centre = tt

abbrev no_token : AdmitToken
no_token = record {
  body = record {
    v = 0;
    exam_id = [];
    centre_id = [];
    seat = [];
    registration_hash = [];
    expires_at = 0;
  };
  signature = [];
}

abbrev token_of : {E : Type 0} → Result E AdmitToken → AdmitToken
token_of (ok t) = t
token_of (err e) = no_token

abbrev token : AdmitToken
token = token_of (issue_admit_token toy (5 ∷ []) issue)

abbrev ciphertext : AeadCiphertext
ciphertext = record { nonce = fit 24 (1 ∷ []); ciphertext = fit 20 (2 ∷ []) }

abbrev envelope : Bytes
envelope = serialize_aead ciphertext

abbrev kek : Bytes
kek = fit 32 (3 ∷ [])

abbrev expected : ExpectedBundle
expected = record {
  bundle_id = codes "E:paper";
  exam_id = codes "E";
  kind = paper_bundle;
  bundle_hash = to_hex (domain_hash toy (codes "bundle-envelope") (envelope ∷ []));
  kek_fingerprint = to_hex (fingerprint_of toy kek);
  threshold = 2;
}

abbrev with_bundle : CentreNode
with_bundle =
    (receive_bundle toy outside centre envelope expected 10 (new_node toy outside centre)).1

abbrev with_key : CentreNode
with_key = (receive_wrapped_kek toy outside centre (codes "E:paper") kek 20 with_bundle).1

abbrev with_candidate : CentreNode
with_candidate = (check_in toy outside centre (some token) 30 31 with_key).1

abbrev clock : Text → ℕ × ℕ
clock seat = (100, 102)

abbrev served : T0Report × CentreNode
served = run_t0 toy outside centre clock with_candidate

served-run :
    (served.0.printed ≡ 1)
    × (served.0.failures ≡ [])
    × (length served.1.log ≡ 6)
    × (length served.1.store.papers ≡ 1)
unfolding run_centre
served-run = (refl, refl, refl, refl)

-- The third append throws: the row of the check-in stays, with no event and not counted, and a
-- second try is refused.
abbrev failing : Outside
failing = record outside { append_throws = λ n. n == 2 }

abbrev unlogged : Outcome Admitted
unlogged = check_in toy failing centre (some token) 30 31 with_key

unlogged-run :
    (unlogged.0 ≡ err log_failed)
    × (length unlogged.1.store.checkins ≡ 1)
    × (length unlogged.1.log ≡ 2)
    × (unlogged.1.checkins_total ≡ 0)
    × ((check_in toy failing centre (some token) 30 32 unlogged.1).0 ≡ err duplicate_checkin)
unfolding run_centre
unlogged-run = (refl, refl, refl, refl, refl)

-- A failover whose append throws ends the printing before the second printer.
print-run :
    (print (log_failover toy failing centre) room (codes "%PDF") (codes "job") with_key).0
    ≡ err (report_failed log_failed)
unfolding run_centre
print-run = refl

calls : Calls toy outside centre served.1
calls =
    after
      (after
        (after (after opened (called_receive_bundle envelope expected 10))
          (called_receive_wrapped_kek (codes "E:paper") kek 20))
        (called_check_in (some token) 30 31))
      (called_run_t0 clock)

Calls-IsSound_example :
    IsSound toy outside centre served.1
    × ((r : CheckinRecord)
        → RecordsCheckin toy outside centre r (checkin_event toy outside centre r))
    × ((r : PaperRecord) → RecordsPaper toy outside centre r (paper_event toy outside centre r))
Calls-IsSound_example = Calls-IsSound toy outside centre served.1 calls

Calls-no_constraint_example :
    (serve_seat toy outside centre (codes "A1") 200 201 served.1).0
    ≢ err (store_failed constraint_violated)
Calls-no_constraint_example =
    (Calls-no_constraint toy outside centre served.1 calls constraint_violated).3 (codes "A1") 200
      201

abbrev generated_of : Result CentreError Generated → Generated
generated_of (ok g) = g
generated_of (err e) = record { pdf = []; paper_hash = [] }

abbrev generated : Generated
generated = generated_of (generate_paper toy outside centre (codes "A1") 100 with_candidate).0

generate_paper-run :
    (generate_paper toy outside centre (codes "A1") 100 with_candidate).0 ≡ ok generated
unfolding run_centre
generate_paper-run = refl

generate_paper_ok_example :
    IsGenerated toy outside centre
      (codes "A1")
      with_candidate
      generated
      (generate_paper toy outside centre (codes "A1") 100 with_candidate).1
generate_paper_ok_example =
    generate_paper_ok toy outside centre (codes "A1") 100 with_candidate generate_paper-run

abbrev printed_out : Result (PrintFailure CentreError) PrintResult × CentreNode
printed_out =
    print (log_failover toy outside centre) room (codes "%PDF") (codes "job") with_candidate

print-IsOutcome_example :
    HasOutcome
      (log_failover toy outside centre)
      room
      (codes "%PDF")
      (codes "job")
      room.printers
      []
      with_candidate
      printed_out
print-IsOutcome_example =
    print-IsOutcome (log_failover toy outside centre) room (codes "%PDF") (codes "job")
      with_candidate

parse_aead_iff_example : (parse_aead envelope ≡ ok ciphertext) ↔ (
    (envelope ≡ serialize_aead ciphertext)
    × (length ciphertext.nonce ≡ 24)
    × (16 ≤ length ciphertext.ciphertext))
parse_aead_iff_example = parse_aead_iff envelope ciphertext

abbrev today : Expected
today = record { exam_id = codes "E"; centre_id = codes "C"; now = 30 }

verify_admit_token_iff_example :
    (verify_admit_token toy token (toy.public_key (5 ∷ [])) today ≡ ok (ok (1 ∷ [])))
    ↔ IsAdmissible toy token (toy.public_key (5 ∷ [])) today (1 ∷ [])
verify_admit_token_iff_example =
    verify_admit_token_iff toy token (toy.public_key (5 ∷ [])) today (1 ∷ [])

verify_admit_token-issue_admit_token_example :
    (t : AdmitToken) × (hash : Bytes) × (issue_admit_token toy (5 ∷ []) issue ≡ ok t)
    × (admit_token_hash toy t.body ≡ ok hash)
    × (verify_admit_token toy t (toy.public_key (5 ∷ [])) today ≡ ok (ok hash))
verify_admit_token-issue_admit_token_example =
    verify_admit_token-issue_admit_token toy toy_laws (5 ∷ []) issue 30 (omega arith)

abbrev share : ShamirShare
share = record { set_id = fit 8 (4 ∷ []); x = 1; threshold = 2; y = fit 32 (6 ∷ []) }

parse_share-serialize_share_example :
    (buf : Bytes) × (serialize_share toy share ≡ ok buf) × (parse_share toy buf ≡ ok share)
parse_share-serialize_share_example =
    parse_share-serialize_share toy toy_laws share refl (omega arith) (omega arith) (omega arith)
      (omega arith)
