-- ===== src/Ssh/Info/Bounds.antt =====
-- The ports that validate_network_port of xcat3/common/utils.py lets through.
use mathlib.Core.Logic.{◌↔◌}
use xcat.Prelude.{
  inl, inr, Option-cases, ℕ, ◌≡◌, ◌≤◌, if◌then◌else◌, true, false, Option, none, some, arith,
}
use xcat.Db.{ok}
use xcat.Ssh.Texts.{ℤ, pos, negsuc, int}
use xcat.Ssh.Info.{validate_network_port}
use xcat.Ssh.{Value, text, number, float, boolean, compound, null}

-- The integer that a value stands for
abbrev pub int_of : Value → Option ℤ
int_of (text t) = int t
int_of (number n) = some n
int_of (float n b) = some n
int_of (boolean b) = if b then some (pos 1) else some (pos 0)
int_of (compound b) = none
int_of null = none

abbrev pub IsPort : ℕ → Type 0
IsPort n = (1 ≤ n) × (n ≤ 65535)

validate_network_port-within :
    (v : Value) (n : ℕ) → validate_network_port v ≡ ok n → (int_of v ≡ some (pos n)) × IsPort n
unfolding validate_network_port
validate_network_port-within null n h = cc
validate_network_port-within (number (pos m)) n h = ground arith
validate_network_port-within (number (negsuc m)) n h = cc
validate_network_port-within (compound b) n h = cc
validate_network_port-within (float (pos m) b) n h = ground arith
validate_network_port-within (float (negsuc m) b) n h = cc
validate_network_port-within (boolean true) n h = ground arith
validate_network_port-within (boolean false) n h = ground arith
validate_network_port-within (text t) n h = elim (Option-cases (int t)) [
  | inl no_number ↦ ground (arith, no_number)
  | inr (pos m, e) ↦ ground (arith, e)
  | inr (negsuc m, e) ↦ ground (arith, e)
]

within-validate_network_port :
    (v : Value) (n : ℕ) → int_of v ≡ some (pos n) → IsPort n → validate_network_port v ≡ ok n
unfolding validate_network_port
within-validate_network_port null n e h = cc
within-validate_network_port (number z) n e (low, high) =
    let same : z ≡ pos n = ground arith in rw same (ground arith)
within-validate_network_port (compound b) n e h = cc
within-validate_network_port (float z b) n e (low, high) =
    let same : z ≡ pos n = ground arith in rw same (ground arith)
within-validate_network_port (boolean true) n e (low, high) = ground arith
within-validate_network_port (boolean false) n e (low, high) = ground arith
within-validate_network_port (text t) n e (low, high) = ground (arith, e)

-- For a value of JSON that is an ASCII text or no text, validate_network_port returns a number
-- exactly when `int` gives that number for it and it lies between 1 and 65535.
pub validate_network_port-IsPort :
    (v : Value) (n : ℕ) → (validate_network_port v ≡ ok n) ↔ ((int_of v ≡ some (pos n)) × IsPort n)
validate_network_port-IsPort v n =
    (validate_network_port-within v n, λ h. within-validate_network_port v n h.0 h.1)
