-- ===== src/Examples/Naming.antt =====
-- The name of a plugin whose header leaked.
use veloria.Base.{◌≡◌, refl, false, codes, ◌||◌, ◌==◌, ltb, starts_with}
use veloria.Sanitize.{
  Classes, clean_text, sanitize_text, normalize_name, clean_loop, kind, visible_name, strip_marker,
  trim, trim_left,
}
use veloria.Sanitize.Laws.{clean_text_idempotent}

abbrev ascii : Classes
ascii = record {
  is_space = λ r. r == 32 || r == 9;
  is_control = λ r. ltb r 32;
  is_format = λ r. r == 8203;
  is_mark = λ r. false;
}

leaked_name : normalize_name ascii (codes "=== Dreamanual  Toolkit") ≡ codes "Dreamanual Toolkit"
unfolding normalize_name sanitize_text clean_text clean_loop kind visible_name strip_marker
    starts_with trim trim_left
leaked_name = refl

clean_text_idempotent_example :
    clean_text ascii (clean_text ascii (codes " a  b ") false) false
    ≡ clean_text ascii (codes " a  b ") false
clean_text_idempotent_example = clean_text_idempotent ascii false refl (codes " a  b ")
