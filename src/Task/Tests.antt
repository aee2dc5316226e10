-- ===== src/Task/Tests.antt =====
-- Runs of the model of src/task.rs, and its theorems at concrete inputs.
use Prim.Native.String.{◌++◌ as ◌<>◌}
use snerd_rust.Base.{◌≡◌, refl, arith, decimal}
use snerd_rust.Base.Decimal.RoundTrip.{Chars}
use snerd_rust.Task.Cron.{parse_cron_syntax, is_whitespace}
use snerd_rust.Task.Cron.Shorthand.{IsSpace, parse_cron_syntax_shorthand}

five_fields : parse_cron_syntax " */5 * * * * " ≡ "0 */5 * * * * *"
unfolding parse_cron_syntax
five_fields = refl

six_fields : parse_cron_syntax "0 0 12 * * Mon" ≡ "0 0 12 * * Mon *"
unfolding parse_cron_syntax
six_fields = refl

-- 2^32 seconds are no shorthand.
overflow : parse_cron_syntax "4294967296s" ≡ "4294967296s"
unfolding parse_cron_syntax
overflow = refl

blank-IsSpace : Chars IsSpace " "
unfolding is_whitespace
blank-IsSpace = (refl, tt)

parse_cron_syntax_shorthand_example :
    (parse_cron_syntax (" " <> ((decimal 30 <> "s") <> " ")) ≡ "*/" <> (decimal 30 <> " * * * * *"))
    × (parse_cron_syntax (" " <> ((decimal 30 <> "m") <> " "))
        ≡ "0 */" <> (decimal 30 <> " * * * *"))
    × (parse_cron_syntax (" " <> ((decimal 30 <> "h") <> " "))
        ≡ "0 0 */" <> (decimal 30 <> " * * *"))
    × (parse_cron_syntax (" " <> ((decimal 30 <> "d") <> " "))
        ≡ "0 0 0 */" <> (decimal 30 <> " * *"))
parse_cron_syntax_shorthand_example =
    parse_cron_syntax_shorthand " " " " 30 blank-IsSpace blank-IsSpace (omega arith)
