-- ===== src/Tests/Settings.antt =====
-- An ini file with a section and a key, and a size.
use ntprof.Prelude.{
  ℕ, ◌*◌, ◌%◌, ◌^◌, ◌≡◌, refl, none, some, List, [], ◌∷◌, ◌++◌, leb, if◌then◌else◌,
}
use ntprof.Config.{config_defaults}
use ntprof.Config.Ini.{load_ini}
use ntprof.Config.Sizes.{SizeUnit, decimal, parse_size-unit}
use ntprof.Config.Text.{codes, parse_size, to_lower}
use ntprof.Config.Valid.{IsValid, config_defaults-IsValid, load_ini-IsValid}

abbrev ini : List ℕ
ini = codes "[Profiling]\nFREQUENCY = 50 ; every 50th\n[Workload]\nIO_SIZE=4K,1M\n"

load_ini-IsValid_example : IsValid (load_ini (some ini) config_defaults).1
load_ini-IsValid_example = load_ini-IsValid (some ini) config_defaults config_defaults-IsValid

upper_k : to_lower b'K' ≡ b'k'
unfolding to_lower
upper_k = refl

parse_size-unit_example : parse_size (b'1' ∷ b'2' ∷ [] ++ b'K' ∷ []) ≡ (
    if leb (2 ^ 64) (decimal 0 (b'1' ∷ b'2' ∷ []))
    then none
    else some (decimal 0 (b'1' ∷ b'2' ∷ []) * 2 ^ 10 % 2 ^ 64))
parse_size-unit_example =
    parse_size-unit b'1' (b'2' ∷ []) (b'K' ∷ []) (2 ^ 10) (refl, (refl, tt))
      (SizeUnit.kilo b'K' upper_k)
