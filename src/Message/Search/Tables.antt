-- ===== src/Message/Search/Tables.antt =====
-- cmd/wmii/message.c: the tables that symbols and values are looked up in.
use wmii.Base.{List, [], ◌∷◌}
use wmii.Base.Str.{CString, codes}

-- `symtab[]`; the L-constants are its indices.
abbrev pub symtab : List CString
symtab =
    codes "allow"
    ∷ codes "bar"
    ∷ codes "border"
    ∷ codes "client"
    ∷ codes "colmode"
    ∷ codes "colors"
    ∷ codes "debug"
    ∷ codes "down"
    ∷ codes "exec"
    ∷ codes "floating"
    ∷ codes "focuscolors"
    ∷ codes "font"
    ∷ codes "fontpad"
    ∷ codes "fullscreen"
    ∷ codes "grabmod"
    ∷ codes "group"
    ∷ codes "grow"
    ∷ codes "incmode"
    ∷ codes "kill"
    ∷ codes "label"
    ∷ codes "left"
    ∷ codes "normcolors"
    ∷ codes "nudge"
    ∷ codes "off"
    ∷ codes "on"
    ∷ codes "quit"
    ∷ codes "right"
    ∷ codes "selcolors"
    ∷ codes "select"
    ∷ codes "send"
    ∷ codes "slay"
    ∷ codes "spawn"
    ∷ codes "swap"
    ∷ codes "tags"
    ∷ codes "toggle"
    ∷ codes "up"
    ∷ codes "urgent"
    ∷ codes "view"
    ∷ codes "wipescreens"
    ∷ codes "~"
    ∷ []

abbrev pub barpostab : List CString
barpostab = codes "bottom" ∷ codes "top" ∷ []

abbrev pub debugtab : List CString
debugtab =
    codes "9p"
    ∷ codes "dnd"
    ∷ codes "event"
    ∷ codes "events"
    ∷ codes "ewmh"
    ∷ codes "focus"
    ∷ codes "generic"
    ∷ codes "stack"
    ∷ []

abbrev pub permtab : List CString
permtab = codes "activate" ∷ []

abbrev pub incmodetab : List CString
incmodetab = codes "ignore" ∷ codes "show" ∷ codes "squeeze" ∷ []

abbrev pub floatingtab : List CString
floatingtab = codes "never" ∷ codes "off" ∷ codes "on" ∷ codes "always" ∷ []

abbrev pub toggletab : List CString
toggletab = codes "off" ∷ codes "on" ∷ codes "toggle" ∷ []

abbrev pub modes : List CString
modes = codes "default" ∷ codes "stack" ∷ codes "max" ∷ []
