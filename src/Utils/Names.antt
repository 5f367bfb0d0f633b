-- ===== src/Utils/Names.antt =====
-- A state's name and back.
use text.Mathlib.TextEquality.{eq_iff}
use free_bfd.Base.{◌≡◌, ◌↔◌, String, some, arith}
use free_bfd.Session.{State}
use free_bfd.Utils.{state_to_str, state_from_str}

-- A text is read as a state exactly when it is the name of that state; any other text fails.
pub state_from_str_iff :
    (str : String) (s : State) → (state_from_str str ≡ some s) ↔ (str ≡ state_to_str s)
unfolding state_from_str state_to_str
state_from_str_iff str s =
    let a = eq_iff str "AdminDown" in
    let d = eq_iff str "Down" in
    let i = eq_iff str "Init" in
    let u = eq_iff str "Up" in
    ground (
      arith,
      a,
      d,
      i,
      u,
      eq_iff "Down" "AdminDown",
      eq_iff "Init" "AdminDown",
      eq_iff "Up" "AdminDown",
      eq_iff "Init" "Down",
      eq_iff "Up" "Down",
      eq_iff "Up" "Init",
    )
