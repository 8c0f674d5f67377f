-- ===== src/Sizing/Tests.antt =====
-- Sizes as they are written in the dialog.
use istatd.Prelude.{◌≡◌, refl, text_eq, none, some, ◌++◌, ◌∷◌}
use istatd.Prelude.Words.{codes}
use istatd.Page.Tests.{two_graphs}
use istatd.Sizing.{size_set_custom, not_whole}
use istatd.Sizing.Accepted.{IsBounded, size_set_custom-IsBounded}

size_set_custom_test : (size_set_custom (codes "x300") two_graphs).1 ≡ some not_whole
unfolding size_set_custom istatd.Prelude.Words.split text_eq
size_set_custom_test = refl

size_set_custom-IsBounded_example :
    IsBounded two_graphs (size_set_custom (codes "640 , 9") two_graphs)
size_set_custom-IsBounded_example = size_set_custom-IsBounded (codes "640 , 9") two_graphs
