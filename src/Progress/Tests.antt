-- ===== src/Progress/Tests.antt =====
-- A text with markup.
use istatd.Prelude.{◌≡◌, some}
use istatd.Prelude.Words.{codes}
use istatd.Progress.{htmlescape}
use istatd.Progress.Escaping.{read_html, with_breaks, read_html-htmlescape}

read_html-htmlescape_example :
    read_html 0 (htmlescape (codes "<b>&amp;</b>")) ≡ some (with_breaks (codes "<b>&amp;</b>"))
read_html-htmlescape_example = read_html-htmlescape (codes "<b>&amp;</b>")
