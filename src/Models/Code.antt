-- ===== src/Models/Code.antt =====
-- models/codes/code.go: a code is a string.
use b7s.Common.Text.{Text, codes}

abbrev pub Code : Type 0
Code = Text

abbrev pub ok : Code
ok = codes "200"

abbrev pub no_content : Code
no_content = codes "204"

abbrev pub partial_content : Code
partial_content = codes "206"

abbrev pub invalid : Code
invalid = codes "400"

abbrev pub not_found : Code
not_found = codes "404"

abbrev pub timeout : Code
timeout = codes "408"

abbrev pub error : Code
error = codes "500"
