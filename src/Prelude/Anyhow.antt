-- ===== src/Prelude/Anyhow.antt =====
-- `anyhow::Error`: the messages of an error and its contexts, the outermost first.
use mathlib.Core.List.{List, [], ◌∷◌}
use p2s.Prelude.Chars.{Text}
use p2s.Prelude.Results.{Result, map_err}

abbrev pub AnyError : Type 0
AnyError = List Text

-- `e.into()` and `context(message)`
abbrev pub from_error {ℓ} : {A : Type ℓ} → Result Text A → Result AnyError A
from_error = map_err (λ e. e ∷ [])

abbrev pub context {ℓ} : {A : Type ℓ} → Text → Result Text A → Result AnyError A
context message = map_err (λ e. message ∷ e ∷ [])
