-- ===== src/Core/Equality.antt =====
-- The equality of the events of crates/ledgerfs-core/src/events.rs is decided.
use native.Mathlib.Decide.{ℕ_discrete}
use text.Mathlib.Text.{◌==◌ as str_eq}
use text.Mathlib.TextEquality.{eq_iff}
use ledgerfs.Prelude.{String, Bool-cases, inl, inr, arith}
use ledgerfs.Core.Events.{EventEnvelope}

String-discrete : Discrete String
String-discrete s t = elim (Bool-cases (str_eq s t)) [
  | inl e ↦ yes ((eq_iff s t).0 e)
  | inr n ↦ no (λ e. ground (arith, (eq_iff s t).1 e))
]

pub Envelope-discrete : Discrete EventEnvelope
Envelope-discrete = hlevel (ℕ_discrete, String-discrete)
