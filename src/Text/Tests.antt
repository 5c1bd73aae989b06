-- ===== src/Text/Tests.antt =====
-- Runs of the C library calls on concrete texts.
use zrh_rtsp_server.Prelude.{◌≡◌, refl, some, [], ◌∷◌}
use zrh_rtsp_server.Text.{
  ascii, pos, negsuc, matched, undefined, scan_word, scan_int, scan_number, skip_space, scan_run,
  span, atoi, digits_value, print_int, print_unsigned, decimal, lines,
}

word : scan_word 8 (ascii " PLAY url") ≡ matched (ascii "PLAY") (ascii " url")
unfolding scan_word scan_run skip_space span
word = refl

long_word : scan_word 4 (ascii "PLAY url") ≡ undefined
unfolding scan_word scan_run skip_space span
long_word = refl

number : atoi (ascii "42\r") ≡ some (pos 42)
unfolding atoi scan_number skip_space span digits_value
number = refl

below : scan_int (ascii "-1-") ≡ matched (negsuc 0) (ascii "-")
unfolding scan_int scan_number skip_space span digits_value
below = refl

printed : print_int (negsuc 105) ≡ ascii "-106"
unfolding print_int print_unsigned decimal
printed = refl

line : lines (ascii "a\nb") ≡ (ascii "a", ascii "b" ∷ [])
unfolding lines
line = refl
