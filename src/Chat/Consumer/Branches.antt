-- ===== src/Chat/Consumer/Branches.antt =====
-- A property of both branches of a test is one of the test.
use ai_chat_websocket.Prelude.{◌≡◌, Bool, true, false, if◌then◌else◌}

pub if-keeps :
    {A : Type 0} (P : A → Type 0) (b : Bool) (x y : A) → P x → P y → P (if b then x else y)
if-keeps P true x y p q = p
if-keeps P false x y p q = q

pub if_false :
    {A : Type 0} (P : A → Type 0) (b : Bool) (x y : A) → b ≡ false → P y → P (if b then x else y)
if_false P b x y h q = rw h q

pub if_true :
    {A : Type 0} (P : A → Type 0) (b : Bool) (x y : A) → b ≡ true → P x → P (if b then x else y)
if_true P b x y h q = rw h q

-- The same for two tests of one Boolean.
pub if-related :
    {A B : Type 0} (R : A → B → Type 0) (b : Bool) (x y : A) (x' y' : B)
    → R x x'
    → R y y'
    → R (if b then x else y) (if b then x' else y')
if-related R true x y x' y' p q = p
if-related R false x y x' y' p q = q
