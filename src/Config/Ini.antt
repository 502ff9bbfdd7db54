-- ===== src/Config/Ini.antt =====
-- An ini file: config_load_ini of src/config.c.
use ntprof.Prelude.{
  c_string, ℕ, ◌-◌, Bool, true, false, ◌||◌, List, [], ◌∷◌, Option, none, some, ◌==◌, if◌then◌else◌,
}
use ntprof.Config.{Config, push_char}
use ntprof.Config.Apply.{apply, snprintf}
use ntprof.Config.Text.{strip, cut_comment}

-- The lines that fgets gives for a buffer of 1024 characters: at most 1023 of them, up to a newline.
-- `room` is what the line has room for, less one.
unfoldable pub lines : ℕ → List ℕ → List (List ℕ)
lines room [] = []
lines room (c ∷ cs) =
    let fresh = lines 1022 cs in
    let same = lines (room - 1) cs in
    if c == 10 || room == 0 then (c ∷ []) ∷ fresh else push_char c same

-- strchr: what is before the first `c`, and what is after it.
unfoldable pub split_at : ℕ → List ℕ → Option (List ℕ × List ℕ)
split_at c [] = none
split_at c (d ∷ ds) = elim (split_at c ds) [
  | none ↦ if d == c then some ([], ds) else none
  | some (before, after) ↦ if d == c then some ([], ds) else some (d ∷ before, after)
]

-- The section and the configuration so far, and whether all was good.
pub record IniState : Type 0 where
  pub good : Bool
  pub section : List ℕ
  pub config : Config

unfoldable pub bad_line : IniState → IniState
bad_line st = record st { good = false }

unfoldable pub section_line : List ℕ → IniState → IniState
unfolding bad_line
section_line s st = elim (split_at b']' s) [
  | none ↦ bad_line st
  | some (name, after) ↦ record st { section = snprintf 64 (strip name) }
]

unfoldable pub key_line : List ℕ → IniState → IniState
unfolding bad_line
key_line s st = elim (split_at b'=' s) [
  | none ↦ bad_line st
  | some (key, v) ↦
      let (good, c) = apply st.section (strip key) (strip v) st.config in
      record st { good = good; config = c }
]

-- A line without its comment and the space around it.
unfoldable pub text_line : List ℕ → IniState → IniState
text_line [] st = st
text_line (c ∷ s) st = if c == b'[' then section_line s st else key_line (c ∷ s) st

unfoldable pub ini_line : List ℕ → IniState → IniState
unfolding text_line
ini_line line st = text_line (strip (cut_comment (c_string line))) st

-- The loop stops at the first bad line.
unfoldable pub ini_lines : List (List ℕ) → IniState → IniState
ini_lines [] st = st
ini_lines (l ∷ ls) st =
    let st' = ini_line l st in let more = ini_lines ls st' in if st'.good then more else st'

-- config_load_ini of the file's bytes, if it can be opened: whether it returns 0, and the
-- configuration.
unfoldable pub load_ini : Option (List ℕ) → Config → Bool × Config
load_ini none c = (false, c)
load_ini (some bytes) c =
    let st = ini_lines (lines 1022 bytes) (record { good = true; section = []; config = c }) in
    (st.good, st.config)
