-- ===== src/Centre/Print.antt =====
-- packages/centre/src/print.ts: `PrintService.print`. What a printer answers to a job over IPP, and
-- what writing to the spool directory gives, the name of the file or an error, are operations of the
-- record `PrintRoom`. `onFailover` is an argument; it works on a state, and what it throws ends the
-- printing.
pub mod Failover
use zero_window.Prelude.{ℕ, Bytes, Text, Option, none, some, List, [], ◌∷◌, ◌++◌, Result, ok, err}
use zero_window.Crypto.Hash.{codes}

-- Why a job failed, and when the failover is logged.
pub record Failure : Type 0 where
  pub reason : Text
  pub at : ℕ

pub record FailedOver : Type 0 where
  pub printer_id : Text
  pub failure : Failure

pub record PrintRoom : Type 0 where
  pub printers : List Text
  -- `printViaIpp`: the reference of the completed job.
  pub print_via_ipp : (printer_id : Text) → (pdf : Bytes) → (job_name : Text) → Result Failure Text
  -- `spool`, where a directory is configured.
  pub spool : Option (Bytes → Text → Result Text Text)

pub data Transport : Type 0 where
  ipp spool_dir : Transport

unfoldable pub transport_name : Transport → Text
transport_name ipp = codes "ipp"
transport_name spool_dir = codes "spool"

pub record PrintResult : Type 0 where
  pub transport : Transport
  pub printer_id : Text
  pub job_ref : Text
  pub failed_over : List FailedOver

-- A `PrintError` with its attempts, what `spool` threw, and what `onFailover` threw.
pub data PrintFailure (E : Type 0) : Type 0 where
  all_failed : List FailedOver → PrintFailure E
  spool_failed : Text → PrintFailure E
  report_failed : E → PrintFailure E

module _ {S E : Type 0} (report : FailedOver → S → Result E (Unit {0}) × S) (room : PrintRoom) where
  unfoldable pub print_from :
      (pdf : Bytes) (job_name : Text) (failed : List FailedOver)
      → List Text
      → S
      → Result (PrintFailure E) PrintResult × S
  print_from pdf job_name failed [] s = elim room.spool [
    | none ↦ (err (all_failed failed), s)
    | some write ↦ elim (write pdf job_name) [
      | err reason ↦ (err (spool_failed reason), s)
      | ok file ↦ (
        ok (record {
          transport = spool_dir;
          printer_id = codes "spool";
          job_ref = file;
          failed_over = failed;
        }),
        s,
      )
    ]
  ]
  print_from pdf job_name failed (printer_id ∷ others) s =
      let rest : FailedOver → S → Result (PrintFailure E) PrintResult × S =
        λ f. print_from pdf job_name (failed ++ f ∷ []) others in
      elim (room.print_via_ipp printer_id pdf job_name) [
        | ok job_ref ↦ (
          ok (record {
            transport = ipp;
            printer_id = printer_id;
            job_ref = job_ref;
            failed_over = failed;
          }),
          s,
        )
        | err f ↦
            let over : FailedOver = record { printer_id = printer_id; failure = f } in
            let (reported, s') = report over s in
            elim reported [ ok u ↦ rest over s' | err e ↦ (err (report_failed e), s') ]
      ]

  unfoldable pub print :
      (pdf : Bytes) → (job_name : Text) → S → Result (PrintFailure E) PrintResult × S
  unfolding print_from
  print pdf job_name s = print_from pdf job_name [] room.printers s
