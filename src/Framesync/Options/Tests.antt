-- ===== src/Framesync/Options/Tests.antt =====
-- A secondary on another port, and a port out of range.
use software_vsync_modulatio.Prelude.{List, [], ◌∷◌}
use software_vsync_modulatio.Prelude.Int.{pos}
use software_vsync_modulatio.Framesync.Options.{
  Opt, secondary, opt_m, opt_p, opt_c, defaults, parse_options,
}
use software_vsync_modulatio.Framesync.Options.Valid.{EndsValid, parse_options-EndsValid}

abbrev some_options : List Opt
some_options = opt_m secondary ∷ opt_p (pos 6000) ∷ opt_c ∷ opt_p (pos 70000) ∷ []

parse_options-EndsValid_example : EndsValid (parse_options some_options defaults)
parse_options-EndsValid_example = parse_options-EndsValid some_options
