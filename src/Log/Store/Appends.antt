-- ===== src/Log/Store/Appends.antt =====
-- packages/log/src/store.ts: `append`, alone and by several writers at once. Between the
-- reservation and the insertion of an `append` the signing is awaited, so that other calls run.
use zero_window.Prelude.{
  ◌≡◌, sym, ap, subst, ◌∙◌, List, [], ◌∷◌, ◌++◌, append_assoc, append-nil, ok, err,
}
use zero_window.Crypto.Sodium.{Sodium, SodiumLaws}
use zero_window.Log.Types.{LogEntry}
use zero_window.Log.Store.{
  Log, Writer, AppendOptions, Reservation, LogError, reserve, commit, append,
}
use zero_window.Log.Store.Chain.{
  IsChain, WasReserved, commit-IsChain, reserve-WasReserved, WasReserved-grow,
}

-- On a table that is a chain, an `append` that returns an entry has put that entry at the end and
-- changed nothing else; the entry has the given type, payload and timestamp and the log's actor,
-- and the table is a chain again: numbers without a gap from 0, each entry naming the hash of the
-- one before it, each hash and signature those of the entry's body.
pub append-IsChain :
    (sodium : Sodium)
    → SodiumLaws sodium
    → (w : Writer) (opts : AppendOptions) (log : Log) {e : LogEntry} {log' : Log}
    → IsChain sodium log.entries
    → append sodium w opts log ≡ ok (e, log')
    → (log'.entries ≡ log.entries ++ e ∷ [])
      × IsChain sodium log'.entries
      × (log'.checkpoints ≡ log.checkpoints)
      × (e.type ≡ opts.type)
      × (e.payload ≡ opts.payload)
      × (e.ts ≡ opts.ts)
      × (e.actor ≡ w.actor)
unfolding append
append-IsChain sodium laws w opts log c h =
    commit-IsChain sodium laws w (reserve log.entries) opts log c
      (reserve-WasReserved sodium log.entries c) h

-- A call of `append` that has reserved its slot and waits for the signature.
pub record Pending : Type 0 where
  pub writer : Writer
  pub opts : AppendOptions
  pub slot : Reservation

pub record Shared : Type 0 where
  pub log : Log
  pub pending : List Pending

module _ (sodium : Sodium) where
  -- One step of any number of calls on one database: a call reserves, or inserts with success, or
  -- throws.
  pub data Step : Shared → Shared → Type 0 where
    reserves :
        {s : Shared} (w : Writer) (opts : AppendOptions)
        → Step s (record s {
          pending = record { writer = w; opts = opts; slot = reserve s.log.entries } ∷ s.pending;
        })
    inserts :
        {s : Shared} (before after : List Pending) (p : Pending) (e : LogEntry) (log' : Log)
        → s.pending ≡ before ++ p ∷ after
        → commit sodium p.writer p.slot p.opts s.log ≡ ok (e, log')
        → Step s (record { log = log'; pending = before ++ after })
    throws :
        {s : Shared} (before after : List Pending) (p : Pending) (e : LogError)
        → s.pending ≡ before ++ p ∷ after
        → commit sodium p.writer p.slot p.opts s.log ≡ err e
        → Step s (record s { pending = before ++ after })

  pub data Reach (s : Shared) : Shared → Type 0 where
    here : Reach s s
    next : {t u : Shared} → Reach s t → Step t u → Reach s u

  module _ (laws : SodiumLaws sodium) where
    abbrev AllReserved : List LogEntry → List Pending → Type 0
    AllReserved es [] = Unit
    AllReserved es (p ∷ ps) = WasReserved sodium p.slot es × AllReserved es ps

    AllReserved-grow :
        (es : List LogEntry) (e : LogEntry) (ps : List Pending)
        → AllReserved es ps
        → AllReserved (es ++ e ∷ []) ps
    AllReserved-grow es e [] h = tt
    AllReserved-grow es e (p ∷ ps) h =
        (WasReserved-grow sodium p.slot es e h.0, AllReserved-grow es e ps h.1)

    AllReserved-split :
        (es : List LogEntry) (before : List Pending) (p : Pending) (after : List Pending)
        → AllReserved es (before ++ p ∷ after)
        → WasReserved sodium p.slot es × AllReserved es (before ++ after)
    AllReserved-split es [] p after h = (h.0, h.1)
    AllReserved-split es (q ∷ before) p after h =
        let (found, rest) = AllReserved-split es before p after h.1 in (found, (h.0, rest))

    -- The table is a chain that extends the one at the start, and every pending slot was
    -- reserved on an earlier state of it.
    abbrev IsShared : List LogEntry → Shared → Type 0
    IsShared start s =
        IsChain sodium s.log.entries
        × AllReserved s.log.entries s.pending
        × ((added : List LogEntry) × (s.log.entries ≡ start ++ added))

    Step-IsShared :
        (start : List LogEntry) {s t : Shared} → Step s t → IsShared start s → IsShared start t
    Step-IsShared start (reserves {s = s} w opts) (c, ps, grown) =
        (c, (reserve-WasReserved sodium s.log.entries c, ps), grown)
    Step-IsShared start (inserts {s = s} before after p e log' split done) (c, ps, (added, grown)) =
        let (found, rest) =
          AllReserved-split s.log.entries before p after
            (subst (AllReserved s.log.entries) split ps) in
        let done' = commit-IsChain sodium laws p.writer p.slot p.opts s.log c found done in
        (
          done'.1,
          subst (λ es. AllReserved es (before ++ after)) (sym done'.0)
              (AllReserved-grow s.log.entries e (before ++ after) rest),
          (
            added ++ e ∷ [],
            done'.0 ∙ ap (λ es. es ++ e ∷ []) grown ∙ append_assoc start added (e ∷ []),
          ),
        )
    Step-IsShared start (throws {s = s} before after p e split failed) (c, ps, grown) = (
      c,
      (AllReserved-split s.log.entries before p after
          (subst (AllReserved s.log.entries) split ps)).1,
      grown,
    )

    Reach-IsShared :
        (start : List LogEntry) {s t : Shared} → IsShared start s → Reach s t → IsShared start t
    Reach-IsShared start h here = h
    Reach-IsShared start h (next r st) = Step-IsShared start st (Reach-IsShared start h r)

-- However the reservations and insertions of any number of `append` calls interleave on one
-- database that starts as a chain with no call pending, the entries table is a chain in every
-- state that is reached, and every entry of the start is still at its place.
pub Reach-IsChain :
    (sodium : Sodium)
    → SodiumLaws sodium
    → (log : Log) {t : Shared} → IsChain sodium log.entries
    → Reach sodium (record { log = log; pending = [] }) t
    → IsChain sodium t.log.entries
      × ((added : List LogEntry) × (t.log.entries ≡ log.entries ++ added))
Reach-IsChain sodium laws log c r =
    let h = Reach-IsShared sodium laws log.entries (c, tt, ([], sym (append-nil log.entries))) r in
    (h.0, h.2)
