-- ===== src/Lib.antt =====
-- wmii: the window manager's own logic.
--
-- wmii is driven by messages that clients write to files of a 9P tree, and lays windows out in
-- views, which hold columns and a floating area on each screen. This library models the code that
-- parses these messages, the utilities that it stands on, the geometry of placement, the
-- structures and computations of areas, columns, views, stacks and bars, the tags of clients, and
-- the parsers of rules and key bindings, and the text, items and history of the menu. The parts
-- meet as in the program: a message is cut into words (Message, Command.Words, Util), a word names
-- a mode, a bit, a number, an area or a frame (Command.Areas), and a command changes an area's
-- lists (Layout.Links), a column's rectangles (Layout.Column, Layout.Fit), a view's columns
-- (Layout.View) or where a window floats (Geom). The tags that a message or a rule gives a client
-- choose its views (Client.Tags), and these the frames that it has (Client.Views).
--
-- Files and the code that they model:
--   Base           shared names, C integers (Base.Int) and C strings (Base.Str)
--   Message.Mask   `mask` of cmd/wmii/message.c
--   Message.Search `_bsearch`, `_lsearch` and the tables of message.c, `modes` of column.c
--   Message.Bits   `setmask` of message.c
--   Command.Words  `msg_eatrunes` and `msg_getword` of cmd/wmii/message.c
--   Command.Areas  `strarea`, `strclient`, `getframe` and `getamt` of message.c, `afmt` of area.c
--   Command.Grow   `getdirection`, `msg_grow` and `msg_nudge` of message.c
--   Command.Send   `msg_selectarea`, `msg_sendclient` and `msg_sendframe` of message.c
--   Client.Views   `client_setviews` of cmd/wmii/client.c, `frame_swap` of frame.c
--   Client.Tags    `client_applytags` and `client_extratags` of client.c, with `join` and `reinit`
--   Rules          `update_rules` of cmd/wmii/rule.c
--   Keys           cmd/wmii/key.c, and `parsekey` of lib/libstuff/x11/keys
--   Util           lib/libstuff/util: tokenize, stokenize, trim, uniq, comm, grep, strlcat, getbase,
--                  getulong, getlong, strend, vector, unquote, unmask, strcasestr
--   Map            lib/libstuff/map.c: the hash tables
--   Geom           lib/libstuff/geom and lib/libstuff/x11/geometry: points and rectangles
--   Geom.Unique    `rect_push`, `unique_rects` and `max_rect` of cmd/wmii/float.c
--   Geom.Floating  `float_placeframe` of float.c
--   Geom.Placing   cmd/wmii/screen.c and `constrain` of cmd/wmii/frame.c
--   Geom.Snap      snapping in cmd/wmii/mouse.c
--   Geom.Hints     `frame_rect2client` and `frame_client2rect` of cmd/wmii/frame.c
--   Geom.Sizes     `frame_gethints` of frame.c, `sizehint` and `gravitate` of lib/libstuff/x11/insanity,
--                  `frame_hints` and `client_grav` of client.c
--   Layout.Links   `frame_insert`, `frame_remove` and `frame_restack` of cmd/wmii/frame.c
--   Layout.Column  `column_settle`, `column_frob` and `column_resizeframe_h` of cmd/wmii/column.c
--   Layout.Fit     `column_fit` of cmd/wmii/column.c
--   Layout.Widths  `column_resizeframe` of cmd/wmii/column.c
--   Layout.Mode    `column_setmode` and `column_getmode` of cmd/wmii/column.c
--   Layout.View    `view_scale` and `view_findarea` of cmd/wmii/view.c
--   Layout.Struts  `fix_rect` and `view_update_rect` of cmd/wmii/view.c
--   Layout.Areas   the lists and choices of cmd/wmii/area.c, and where `view_create` puts a view
--   Layout.Stack   `stack_info`, `stack_count` and `stack_find` of cmd/wmii/stack.c
--   Bar            the bar list and the bar window's place in cmd/wmii/bar.c
--   Menu           the text and caret of cmd/menu/caret.c
--   Menu.Items     `filter_list` and `update_filter` of cmd/menu/main.c
--   Menu.History   `history_search` of cmd/menu/history.c
--   Tests          the theorems at concrete inputs
-- A definition has the name of the function that it models; the branches of a function are helpers
-- by clauses beside it. A pointer into a list is an index, a nil pointer is `none`, and a text is
-- the list of its bytes before the NUL. Layout.Links keeps the pointers: a frame is an address,
-- and the store holds its four links.
--
-- Bounds and fuel: a C `int` is an integer without a bound, since a sum that overflows is
-- undefined and X11 coordinates have 16 bits; where an `int` meets an `unsigned int` its value
-- modulo 2^32 is written out (`to_uint`). The loop over `mask` and `_bsearch` run on fuel, with
-- the theorem that enough of it lets them end; so do `msg_eatrunes` and the loop over
-- `msg_getword`, `update_rules`, and `unquote`, where one round more than the text has bytes, or
-- one more than it has words, is enough; the loop that enlarges the menu's buffer runs on as much
-- fuel as it has bytes to make room for, which is enough since it never shrinks.
--
-- Parameters for what is not this program's code: `qsort`'s order is a hypothesis of `uniq`, the
-- rune functions of libutf are the record Message.Search.Runes, `strtol` and `strtoul` are
-- Util.Number.Strtol, a regular expression is a predicate, what a bar keeps of its name is a
-- function, and the floating-point step of `view_scale` is an arbitrary function. libutf's
-- `chartorune` and the test for a space are Command.Words.Scanner; bsearch, qsort, utflcpy and
-- regexec are Client.Tags.Lib; the key codes of names and strcasecmp are Keys.Lib; what `regcomp`
-- takes, and what stands in memory behind its buffer, is Rules.Lib; tolower and strncasecmp are
-- Util.Strcasestr.Lib. `view_create`, which calls back into the tags of every client, is the
-- record Client.Views.Creation, whose field `behind` is what it leaves of the frames that are
-- still to come.
--
-- Not modelled: X11 windows, events and drawing, the 9P file tree, EWMH, the tray, the strut tool
-- and the wmiir client, which are calls of libraries; the vendored libbio, libfmt, libregexp and
-- libutf; `column_scale` and `column_squeeze`, which are floating point; what `column_fit` does
-- after its first call of `area_moveto`, which has the column laid out again in the middle of its
-- loop; the dispatch of the root, view and client messages, and focus beyond the choices that are
-- modelled, which call these or the parts that are.
pub mod Base
pub mod Message
pub mod Rules
pub mod Util
pub mod Map
pub mod Geom
pub mod Keys
pub mod Layout
pub mod Bar
pub mod Client
pub mod Command
pub mod Menu
pub mod Tests
