-- ===== src/Tests/Papers.antt =====
-- A bank of three items, its validation, and a paper assembled from it.
use zero_window.Prelude.{
  ℕ, ◌≡◌, refl, ok, err, Result, Bytes, List, [], ◌∷◌, ◌++◌, length, map, arith, ◌<◌, ◌≤◌, ◌+◌, ◌*◌,
  ◌/◌, ◌%◌, ◌^◌, ◌↔◌,
}
use mathlib.Core.List.{Perm, Permᴰ}
use zero_window.Prelude.Sort.{precedes, HasDistinctKeys}
use zero_window.Crypto.Hash.{codes}
use zero_window.Authority.Bank.{
  easy, hard, Item, ItemBank, Blueprint, PaperBundleContent, split_bank, validate_bank, drop_answer,
}
use zero_window.Authority.Bank.Validity.{IsValidBank, validate_bank_iff}
use zero_window.Centre.Prng.{Stream, PrngError, no_draw, limit_for, next_below, shuffle, sample}
use zero_window.Centre.Prng.Draws.{limit_for_uniform, next_below_iff, IsDrawn}
use zero_window.Centre.Prng.Shuffle.{shuffle-perm}
use zero_window.Centre.Prng.Sample.{sample-perm}
use zero_window.Centre.Assemble.{
  AssembledPaper, AssemblyError, assemble_paper, item_key, stream_failed,
}
use zero_window.Centre.Assemble.Order.{assemble_paper-Permᴰ}
use zero_window.Centre.Assemble.Drawn.{AreDrawn, assemble_paper-AreDrawn}
use zero_window.Centre.Assemble.Validated.{assemble_paper-validate_bank}
use zero_window.Tests.Toy.{toy, toy_laws}

abbrev stream : Stream
stream = record {
  seed = 9 ∷ 1 ∷ 200 ∷ 3 ∷ 77 ∷ 5 ∷ 6 ∷ 7 ∷ 8 ∷ 9 ∷ 10 ∷ 11 ∷ 12 ∷ [];
  counter = 0;
  pool = [];
  offset = 0;
}

abbrev algebra : Item
algebra = record {
  id = codes "m1";
  subject = codes "maths";
  difficulty = easy;
  body = codes "1 + 1 = ?";
  options = codes "1" ∷ codes "2" ∷ codes "3" ∷ [];
  correct_index = 1;
}

abbrev geometry : Item
geometry = record {
  id = codes "m2";
  subject = codes "maths";
  difficulty = easy;
  body = codes "sides of a square";
  options = codes "3" ∷ codes "4" ∷ [];
  correct_index = 1;
}

abbrev optics : Item
optics = record {
  id = codes "p1";
  subject = codes "physics";
  difficulty = hard;
  body = codes "speed of light";
  options = codes "c" ∷ codes "g" ∷ [];
  correct_index = 0;
}

abbrev pub bank : ItemBank
bank = record { exam_id = codes "E"; items = geometry ∷ algebra ∷ optics ∷ [] }

abbrev pub blueprint : Blueprint
blueprint = record {
  exam_id = codes "E";
  title = codes "Paper";
  duration_minutes = 60;
  slots =
      record { subject = codes "maths"; difficulty = easy; count = 1 }
      ∷ record { subject = codes "physics"; difficulty = hard; count = 1 }
      ∷ [];
}

abbrev token : Bytes
token = 1 ∷ 2 ∷ 3 ∷ []

-- Names the definitions that a run computes with.
unfoldable pub run_papers : Unit {0}
unfolding precedes shuffle sample validate_bank split_bank assemble_paper
run_papers = tt

abbrev state_of : {A : Type 0} → Result PrngError (A × Stream) → Stream
state_of (ok r) = r.1
state_of (err e) = stream

abbrev three : List ℕ
three = 10 ∷ 20 ∷ 30 ∷ []

shuffle-run :
    shuffle toy 5 three stream ≡ ok (30 ∷ 20 ∷ 10 ∷ [], state_of (shuffle toy 5 three stream))
unfolding run_papers
shuffle-run = refl

shuffle-perm_example : Perm (30 ∷ 20 ∷ 10 ∷ []) three
shuffle-perm_example = shuffle-perm toy 5 three stream shuffle-run

abbrev drawn : List ℕ
drawn = 10 ∷ 30 ∷ []

sample-run : sample toy 5 three 2 stream ≡ ok (drawn, state_of (sample toy 5 three 2 stream))
unfolding run_papers
sample-run = refl

sample-perm_example : (length drawn ≡ 2) × (rest : List ℕ) × Permᴰ (drawn ++ rest) three
sample-perm_example = sample-perm toy 5 three 2 stream sample-run

limit_for_uniform_example :
    (2 ^ 31 < limit_for 3)
    × (limit_for 3 ≤ 2 ^ 32)
    × ((v : ℕ) → v < limit_for 3 → (v / 3 < 2 ^ 32 / 3) × (v / 3 * 3 + v % 3 ≡ v) × (v % 3 < 3))
    × ((j r : ℕ)
        → j < 2 ^ 32 / 3
        → r < 3
        → (j * 3 + r < limit_for 3) × ((j * 3 + r) % 3 ≡ r) × ((j * 3 + r) / 3 ≡ j))
limit_for_uniform_example = limit_for_uniform 3 (omega arith) (omega arith)

abbrev drawn_of : Result PrngError (ℕ × Stream) → ℕ × Stream
drawn_of (ok r) = r
drawn_of (err e) = (0, stream)

abbrev first_draw : ℕ × Stream
first_draw = drawn_of (next_below toy 1 3 stream)

next_below_iff_example :
    (next_below toy 1 3 stream ≡ ok first_draw)
    ↔ IsDrawn toy 1 3 (2 ^ 32 / 3 * 3) stream (first_draw.0) (first_draw.1)
next_below_iff_example = next_below_iff toy 1 3 stream (first_draw.0) (first_draw.1) (omega arith)

validate_bank-run : validate_bank bank blueprint ≡ ok tt
unfolding run_papers
validate_bank-run = refl

validate_bank_iff_example : (validate_bank bank blueprint ≡ ok tt) ↔ IsValidBank bank blueprint
validate_bank_iff_example = validate_bank_iff bank blueprint

abbrev pub content : PaperBundleContent
content = record {
  exam_id = bank.exam_id;
  blueprint = blueprint;
  items = map drop_answer bank.items;
}

abbrev no_paper : AssembledPaper
no_paper = record {
  exam_id = [];
  centre_id = [];
  seat = [];
  token_hash_hex = [];
  title = [];
  duration_minutes = 0;
  questions = [];
}

abbrev paper_of : Result AssemblyError AssembledPaper → AssembledPaper
paper_of (ok p) = p
paper_of (err e) = no_paper

abbrev paper : AssembledPaper
paper = paper_of (assemble_paper toy 5 content (codes "C") (codes "A1") token)

assemble_paper-run : assemble_paper toy 5 content (codes "C") (codes "A1") token ≡ ok paper
unfolding run_papers
assemble_paper-run = refl

assemble_paper-AreDrawn_example : AreDrawn content.items 1 content.blueprint.slots paper.questions
assemble_paper-AreDrawn_example =
    assemble_paper-AreDrawn toy 5 content (codes "C") (codes "A1") token assemble_paper-run

ids_distinct : HasDistinctKeys item_key content.items
ids_distinct = ((ground arith, (ground arith, tt)), ((ground arith, tt), (tt, tt)))

assemble_paper-Permᴰ_example :
    assemble_paper toy 5 content (codes "C") (codes "A1") token
    ≡ assemble_paper toy 5
        (record content { items = map drop_answer (algebra ∷ geometry ∷ optics ∷ []) })
        (codes "C")
        (codes "A1")
        token
assemble_paper-Permᴰ_example =
    assemble_paper-Permᴰ toy 5 content (map drop_answer (algebra ∷ geometry ∷ optics ∷ []))
      (Permᴰ.swap refl refl) ids_distinct (codes "C") (codes "A1") token

out_of_tries :
    assemble_paper toy 0 (split_bank bank blueprint).0 (codes "C") (codes "A1") token
    ≡ err (stream_failed no_draw)
unfolding run_papers
out_of_tries = refl

assemble_paper-validate_bank_example :
    ◌≡◌ {A = AssemblyError} (stream_failed no_draw) (stream_failed no_draw)
assemble_paper-validate_bank_example =
    assemble_paper-validate_bank toy toy_laws 0 bank blueprint (codes "C") (codes "A1") token
      validate_bank-run out_of_tries
