-- ===== src/Error.antt =====
-- src/error.rs: the failures that the library returns. What a failure carries, an error of the system
-- or a message, is not kept with it; where it is printed its text is an argument.
use grainstore.Base.{ℕ, List, ◌++◌, Option, some, none}
use grainstore.Base.Codes.{codes}

pub data Error : Type 0 where
  io corrupt closed denied : Error

pub data Result {ℓ} (A : Type ℓ) : Type ℓ where
  ok : A → Result A
  err : Error → Result A

infixl 5 ◌>>=◌
abbrev pub ◌>>=◌ {ℓ κ} : {A : Type ℓ} {B : Type κ} → Result A → (A → Result B) → Result B
ok a >>= f = f a
err e >>= f = err e

-- Display, with the text of what the failure carries.
unfoldable pub display : Error → List ℕ → List ℕ
display io carried = codes "i/o error: " ++ carried
display corrupt carried = codes "corrupt data: " ++ carried
display closed carried = codes "committer is closed"
display denied carried = codes "denied: " ++ carried

-- std::error::Error::source, with the error of the system that the failure may carry.
unfoldable pub source {ℓ} : {A : Type ℓ} → Error → A → Option A
source io carried = some carried
source corrupt carried = none
source closed carried = none
source denied carried = none

-- `Error::from` an error of the system.
abbrev pub from_io : Error
from_io = io
