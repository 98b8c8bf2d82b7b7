-- ===== src/Tests/Canonical.antt =====
-- Canonical JSON on one object, written in two orders.
use zero_window.Prelude.{◌≡◌, refl, ◌≢◌, Text, ok, arith}
use zero_window.Crypto.Hash.{codes}
use zero_window.Log.Canonical.{
  Value, null, number, integer, array, object, nil, cons, end, field, canonicalize,
}
use zero_window.Prelude.Sort.{sort_by, precedes}
use zero_window.Log.Canonical.Order.{in_object, swap, canonicalize-Reordered}
use zero_window.Log.Canonical.Total.{is_canonical, is_ok, canonicalize-is_canonical}

abbrev ordered : Value
ordered =
    object (field (codes "a") (number (integer 10)) (field (codes "b") (array (cons null nil)) end))

abbrev reordered : Value
reordered =
    object (field (codes "b") (array (cons null nil)) (field (codes "a") (number (integer 10)) end))

canonicalize-run : canonicalize reordered ≡ ok (codes "{\"a\":10,\"b\":[null]}")
unfolding canonicalize sort_by precedes
canonicalize-run = refl

keys_differ : ◌≢◌ {A = Text} (codes "b") (codes "a")
keys_differ = ground arith

canonicalize-Reordered_example : canonicalize reordered ≡ canonicalize ordered
canonicalize-Reordered_example =
    canonicalize-Reordered reordered ordered (in_object (swap keys_differ))

canonicalize-is_canonical_example : is_ok (canonicalize ordered) ≡ is_canonical ordered
canonicalize-is_canonical_example = canonicalize-is_canonical ordered
