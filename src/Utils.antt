-- ===== src/Utils.antt =====
-- src/core/bfdUtils.c: the names of the states, and the comparison of session identities.
pub mod Names
pub mod Compare
pub mod Strings
pub mod Cycles
use text.Mathlib.Text.{◌==◌ as str_eq}
use free_bfd.Base.{
  ℕ, ◌+◌, ◌-◌, ◌^◌, Bool, false, Option, none, some, String, ℤ, pos, negsuc, sub_ℕ, u32, ltb, ◌==◌,
  if◌then◌else◌,
}
use free_bfd.Session.{State, admin_down, down, init, up, BfdSession}

-- `bfdStateToStr`
unfoldable pub state_to_str : State → String
state_to_str admin_down = "AdminDown"
state_to_str down = "Down"
state_to_str init = "Init"
state_to_str up = "Up"

-- `bfdStateFromStr`, where `none` is the failure.
unfoldable pub state_from_str : String → Option State
state_from_str str =
    if str_eq str "AdminDown"
    then some admin_down
    else if str_eq str "Down"
    then some down
    else if str_eq str "Init"
    then some init
    else if str_eq str "Up"
    then some up
    else none

-- The `int` that a 32-bit pattern stands for.
abbrev pub int_of : ℕ → ℤ
int_of n = if ltb n (2 ^ 31) then pos n else negsuc (2 ^ 32 - 1 - n)

-- The difference of two such, as the machine computes it.
abbrev pub sub_int : ℕ → ℕ → ℤ
sub_int a b = int_of (u32 (a + (2 ^ 32 - b)))

abbrev pub is_zero : ℤ → Bool
is_zero (pos n) = n == 0
is_zero (negsuc n) = false

-- `bfdSessionCompare`. The ports are 16-bit numbers, whose difference does not overflow.
unfoldable pub session_compare : BfdSession → BfdSession → ℤ
session_compare s1 s2 =
    let cmp = sub_int s1.peer_addr s2.peer_addr in
    let cmp1 = if is_zero cmp then sub_int s1.local_addr s2.local_addr else cmp in
    let cmp2 = if is_zero cmp1 then sub_ℕ s1.peer_port s2.peer_port else cmp1 in
    if is_zero cmp2 then sub_ℕ s1.local_port s2.local_port else cmp2
