-- ===== src/Service/Options/Tests.antt =====
-- A command line, and the theorems about it at concrete inputs. A double is its digit count here.
use nova_visualiser.Prelude.{
  ℕ, ◌≡◌, refl, true, false, ◌++◌, List, [], ◌∷◌, Bytes, codes, length, bytes_eq, All,
}
use nova_visualiser.Net.Text.{cut, or_pushed}
use nova_visualiser.Net.Numbers.{atoi_bits, skip_blanks, sign_of, digits_from, digit_of}
use nova_visualiser.Service.Options.{
  Floats, fails, succeeds, unknown_option, usage_asked, valued, plain, run_branch, after_flag,
  finish, parse_args, defaults, parse_size, size_parts, sizes, render_size,
}
use nova_visualiser.Service.Options.Sizes.{Accepts, parse_args-defaults}
use nova_visualiser.Service.Options.Lines.{
  Setting, set_fps, set_verbose, set_size, line, IsFine, stands_alone, set_all, if_even,
  parse_args-line,
}

abbrev floats : Floats ℕ
floats = record { atof = λ b. length b; to_float = λ x. x; of_nat = λ n. n }

abbrev arguments : List Bytes
arguments = codes "--fps" ∷ codes "30" ∷ codes "--verbose" ∷ codes "--size" ∷ codes "1280x720" ∷ []

parse_args-sample :
    parse_args floats arguments (defaults floats)
    ≡ succeeds
        (record (defaults floats) { frame_rate = 30; verbose = true; width = 1280; height = 720 })
unfolding parse_args defaults valued plain run_branch after_flag finish parse_size size_parts sizes
    render_size cut or_pushed bytes_eq atoi_bits skip_blanks sign_of digits_from digit_of
parse_args-sample = refl

parse_args-defaults_example : Accepts (parse_args floats arguments (defaults floats))
parse_args-defaults_example = parse_args-defaults floats arguments

abbrev settings : List Setting
settings =
    set_fps (codes "30")
    ∷ set_verbose
    ∷ set_size (codes "1280") (codes "720")
    ∷ set_fps (codes "60")
    ∷ []

settings-IsFine : All IsFine settings
unfolding atoi_bits skip_blanks sign_of digits_from digit_of
settings-IsFine = (tt, (tt, (((refl, (refl, (refl, (refl, tt)))), refl), (tt, tt))))

size_word-stands_alone : stands_alone (codes "--size") ≡ false
unfolding bytes_eq
size_word-stands_alone = refl

parse_args-line_example :
    (parse_args floats (line settings) (defaults floats)
      ≡ if_even floats (set_all floats settings (defaults floats)))
    × ((parse_args floats (line settings ++ codes "--help" ∷ codes "--fps" ∷ []) (defaults floats)
          ≡ fails usage_asked)
        × (parse_args floats (line settings ++ codes "--size" ∷ []) (defaults floats)
            ≡ fails (unknown_option (codes "--size"))))
parse_args-line_example =
    parse_args-line floats settings (defaults floats) (codes "--fps" ∷ []) (codes "--size")
      settings-IsFine size_word-stands_alone
