-- ===== src/Text/Tests.antt =====
-- The string functions of kernel/main/util/string.c at concrete strings.
use osfix_operating_system.Base.{◌≡◌, refl, some, [], ◌∷◌}
use osfix_operating_system.Base.Int.{negsuc}
use osfix_operating_system.Text.{CString, strlen, strcmp, strstr, matches_here, strrchr, strpbrk}

abbrev hello : CString
hello = b'h' ∷ b'e' ∷ b'l' ∷ b'l' ∷ b'o' ∷ 0 ∷ b'x' ∷ []

abbrev ell : CString
ell = b'l' ∷ b'l' ∷ 0 ∷ []

strstr_runs : strstr hello ell ≡ some 2
unfolding strstr strlen matches_here
strstr_runs = refl

strrchr_runs : strrchr hello b'l' ≡ some 3
unfolding strrchr
strrchr_runs = refl

strpbrk_runs : strpbrk hello ell ≡ some 2
unfolding strpbrk
strpbrk_runs = refl

strcmp_runs : strcmp hello ell ≡ negsuc 3
unfolding strcmp
strcmp_runs = refl
