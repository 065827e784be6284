-- ===== src/Publish/Version/Texts.antt =====
-- The order of texts that Go's `<` gives, internal/publish/version.go.
use intercore.Common.{◌≡◌, refl, true, false, [], ◌∷◌, arith}
use intercore.Common.Text.{Text}
use intercore.Publish.Version.{text_ltb}

pub text_ltb-irreflexive : (s : Text) → text_ltb s s ≡ false
unfolding text_ltb
text_ltb-irreflexive [] = refl
text_ltb-irreflexive (c ∷ s) = ground (arith, text_ltb-irreflexive s)

pub text_ltb-asymmetric : (s t : Text) → text_ltb s t ≡ true → text_ltb t s ≡ false
unfolding text_ltb
text_ltb-asymmetric [] [] h = refl
text_ltb-asymmetric [] (d ∷ t) h = refl
text_ltb-asymmetric (c ∷ s) [] h = cc
text_ltb-asymmetric (c ∷ s) (d ∷ t) h = ground (arith, text_ltb-asymmetric s t)

pub text_ltb-transitive :
    (s t u : Text) → text_ltb s t ≡ true → text_ltb t u ≡ true → text_ltb s u ≡ true
unfolding text_ltb
text_ltb-transitive [] [] u h k = cc
text_ltb-transitive [] (d ∷ t) [] h k = cc
text_ltb-transitive [] (d ∷ t) (e ∷ u) h k = refl
text_ltb-transitive (c ∷ s) [] u h k = cc
text_ltb-transitive (c ∷ s) (d ∷ t) [] h k = cc
text_ltb-transitive (c ∷ s) (d ∷ t) (e ∷ u) h k = ground (arith, text_ltb-transitive s t u)

pub text_ltb-connected : (s t : Text) → text_ltb s t ≡ false → text_ltb t s ≡ false → s ≡ t
unfolding text_ltb
text_ltb-connected [] [] h k = refl
text_ltb-connected [] (d ∷ t) h k = cc
text_ltb-connected (c ∷ s) [] h k = cc
text_ltb-connected (c ∷ s) (d ∷ t) h k = ground (arith, text_ltb-connected s t)
