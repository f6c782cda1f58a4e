-- ===== src/ManifestFile/Readers.antt =====
-- The list of issues that the readers of runtime/src/loader/manifest.cpp hand on.
use nemotron_inference.Base.{ℕ, List}
use nemotron_inference.Manifest.{Issues, add_error}

abbrev pub Reading : Type 0 → Type 0
Reading A = Issues → A × Issues

infixl 20 ◌>>=◌
abbrev pub ◌>>=◌ : {A B : Type 0} → Reading A → (A → Reading B) → Reading B
m >>= k = λ issues. k (m issues).0 (m issues).1

abbrev pub pure : {A : Type 0} → A → Reading A
pure a issues = (a, issues)

-- `add_error` and the value that the output keeps.
abbrev pub complain : {A : Type 0} → List ℕ → List ℕ → A → Reading A
complain tensor_name message kept issues = (kept, add_error issues tensor_name message)
