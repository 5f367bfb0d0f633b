-- ===== src/MonTest/Loaded.antt =====
-- src/bfdmontest/bfdmontest.c: the sessions that are loaded from a file.
use mathlib.Core.List.{append_assoc, append-nil}
use free_bfd.Base.{
  ℕ, ◌^◌, ◌<◌, ◌≡◌, refl, sym, ap, ◌∙◌, true, Option, none, some, List, [], ◌∷◌, String, inl, inr,
  Option-cases, ◌++◌,
}
use free_bfd.Session.{BfdSession}
use free_bfd.Json.{Inet}
use free_bfd.MonTest.Asked.{asked_for, with_line_options, parse_line_lem}
use free_bfd.MonTest.{Line, apply_options, parse_line, load_lines, load_session_file}
use free_bfd.Config.Ranges.{IsFitting}
use free_bfd.Programs.{exits, goes}
use free_bfd.Trees.{All}
use free_bfd.MonTest.Fitting.{options-IsFitting, line-IsFitting}

module _ (sscanf : String → Option ℕ) (inet : Inet) where
  -- The sessions that the lines of a file ask for, that of the last line first.
  abbrev pub wanted : List Line → List BfdSession
  wanted [] = []
  wanted (line ∷ rest) = elim (asked_for sscanf inet line) [
    | none ↦ wanted rest
    | some sn ↦ wanted rest ++ (sn ∷ [])
  ]

  asks_none : (line : Line) → parse_line inet line ≡ none → asked_for sscanf inet line ≡ none
  asks_none line e =
      sym (parse_line_lem sscanf inet line) ∙ ap (with_line_options sscanf inet line) e

  asks_one :
      (line : Line) (sn : BfdSession)
      → parse_line inet line ≡ some sn
      → asked_for sscanf inet line ≡ some (apply_options sscanf line.options sn)
  asks_one line sn e =
      sym (parse_line_lem sscanf inet line) ∙ ap (with_line_options sscanf inet line) e

All-snoc :
    (xs : List BfdSession) (x : BfdSession)
    → IsFitting x
    → All IsFitting xs
    → All IsFitting (xs ++ (x ∷ []))
All-snoc [] x h all = (h, tt)
All-snoc (y ∷ ys) x h (k, all) = (k, All-snoc ys x h all)

module _ (inet : Inet) (small : (s : String) (a : ℕ) → inet.aton s ≡ some a → a < 2 ^ 32)
    (sscanf : String → Option ℕ) where
  load_lines_lem :
      (lines : List Line) (sns : List BfdSession)
      → load_lines sscanf inet true lines sns ≡ goes (wanted sscanf inet lines ++ sns)
  unfolding load_lines
  load_lines_lem [] sns = refl
  load_lines_lem (line ∷ rest) sns = elim (Option-cases (parse_line inet line)) [
    | inl skip ↦
        rw (skip, load_lines, asks_none sscanf inet line skip, wanted) (load_lines_lem rest sns)
    | inr (sn, asks) ↦
        let one = apply_options sscanf line.options sn in
        rw
          (
            asks,
            load_lines,
            asks_one sscanf inet line sn asks,
            wanted,
            load_lines_lem rest (one ∷ sns),
            append_assoc (wanted sscanf inet rest) (one ∷ []) sns,
          )
          refl
  ]

  wanted-IsFitting : (lines : List Line) → All IsFitting (wanted sscanf inet lines)
  wanted-IsFitting [] = tt
  wanted-IsFitting (line ∷ rest) = elim (Option-cases (parse_line inet line)) [
    | inl skip ↦ rw (asks_none sscanf inet line skip, wanted) (wanted-IsFitting rest)
    | inr (sn, asks) ↦
        let one = apply_options sscanf line.options sn in
        let fits =
          options-IsFitting sscanf line.options sn (line-IsFitting inet small line sn asks) in
        rw (asks_one sscanf inet line sn asks, wanted)
          (All-snoc (wanted sscanf inet rest) one fits (wanted-IsFitting rest))
  ]

  -- With room for each session, a file gives the sessions that its lines ask for, that of the
  -- last line first: one for each line that does not begin with '#' behind blanks and has two
  -- addresses and ports, with the last value of each option that can be read and the defaults
  -- for the others. All of them have their numbers in the ranges of their fields, if
  -- `inet_aton` gives 32 bits. A file that cannot be opened ends the program with 1.
  pub load_session_file_lem :
      (lines : List Line)
      → (load_session_file sscanf inet true (some lines) ≡ goes (wanted sscanf inet lines))
        × All IsFitting (wanted sscanf inet lines)
        × (load_session_file sscanf inet true none ≡ exits 1)
  unfolding load_session_file
  load_session_file_lem lines = (
    rw (load_lines_lem lines [], append-nil (wanted sscanf inet lines)) refl,
    wanted-IsFitting lines,
    refl,
  )
