-- ===== src/Layout/Links.antt =====
-- `frame_insert`, `frame_remove` and `frame_restack` of cmd/wmii/frame.c: the two linked lists that an
-- area keeps of its frames. A frame is an address; the store holds its four links. No frame is its
-- own neighbour, so that what a function reads of a frame's neighbours is what stood there before.
pub mod Lists
pub mod Insert
pub mod Remove
pub mod Order
use wmii.Base.{
  ℕ, ◌≡◌, refl, Bool, true, false, Option, none, some, List, [], ◌∷◌, ◌==◌, ◌&&◌, ◌||◌, not,
  if◌then◌else◌,
}

-- A link field of every frame.
abbrev pub Links : Type 0
Links = ℕ → Option ℕ

-- `k->link = v`
unfoldable pub put : Links → ℕ → Option ℕ → Links
put g k v = λ j. if j == k then v else g j

-- `if(p) p->link = v`
unfoldable pub put_at : Links → Option ℕ → Option ℕ → Links
unfolding put
put_at g none v = g
put_at g (some k) v = put g k v

-- An area and the links of its frames.
pub record Area : Type 0 where
  pub floating : Bool
  pub frame : Option ℕ
  pub stack : Option ℕ
  pub anext : Links
  pub aprev : Links
  pub snext : Links
  pub sprev : Links

abbrev pub same : Option ℕ → Option ℕ → Bool
same none none = true
same none (some k) = false
same (some j) none = false
same (some j) (some k) = j == k

-- `frame_remove`: the links of the area's order, then those of the stacking order.
unfoldable pub remove_order : Area → ℕ → Area
unfolding put put_at
remove_order a f = record a {
  anext = put (put_at a.anext (a.aprev f) (a.anext f)) f none;
  aprev = put (put_at a.aprev (a.anext f) (a.aprev f)) f none;
  frame = if same (some f) a.frame then a.anext f else a.frame;
}

unfoldable pub remove_stack : Area → ℕ → Area
unfolding put put_at
remove_stack a f = record a {
  snext = put (put_at a.snext (a.sprev f) (a.snext f)) f none;
  sprev = put (put_at a.sprev (a.snext f) (a.sprev f)) f none;
  stack = if same (some f) a.stack then a.snext f else a.stack;
}

-- The links are cleared in an area that does not float too.
unfoldable pub clear_stack : Area → ℕ → Area
unfolding put
clear_stack a f = record a { snext = put a.snext f none; sprev = put a.sprev f none }

unfoldable pub frame_remove : Area → ℕ → Area
unfolding remove_order remove_stack clear_stack
frame_remove a f =
    let b = remove_order a f in if a.floating then remove_stack b f else clear_stack b f

-- `frame_restack` once it has decided to move the frame: it is unlinked, then linked behind `above`.
unfoldable pub unlink_stack : Area → ℕ → Area
unfolding put put_at
unlink_stack a f = record a {
  snext = put_at a.snext (a.sprev f) (a.snext f);
  sprev = put_at a.sprev (a.snext f) (a.sprev f);
  stack = if same (a.sprev f) none && not (same (a.snext f) none) then a.snext f else a.stack;
}

unfoldable pub link_stack : Area → ℕ → Option ℕ → Area
unfolding put put_at
link_stack a f none = record a {
  snext = put a.snext f a.stack;
  sprev = put_at (put a.sprev f none) a.stack (some f);
  stack = some f;
}
link_stack a f (some g) = record a {
  snext = put (put a.snext f (a.snext g)) g (some f);
  sprev = put_at (put a.sprev f (some g)) (a.snext g) (some f);
}

-- The early returns of `frame_restack`.
unfoldable pub stays : Area → ℕ → Option ℕ → Bool
stays a f above =
    not a.floating
    || (same (some f) above
        || ((not (same (a.sprev f) none) || same (some f) a.stack) && same (a.sprev f) above))

unfoldable pub frame_restack : Area → ℕ → Option ℕ → Area
unfolding stays unlink_stack link_stack
frame_restack a f above = if stays a f above then a else link_stack (unlink_stack a f) f above

-- `frame_insert`: behind `pos`, or first. With no `pos` the frame keeps the `aprev` that it has.
unfoldable pub insert_order : Area → ℕ → Option ℕ → Area
unfolding put put_at
insert_order a f (some p) = record a {
  anext = put_at (put a.anext f (a.anext p)) (some p) (some f);
  aprev = put_at (put a.aprev f (some p)) (a.anext p) (some f);
}
insert_order a f none = record a {
  frame = some f;
  anext = put_at (put a.anext f a.frame) (a.aprev f) (some f);
  aprev = put_at a.aprev a.frame (some f);
}

unfoldable pub frame_insert : Area → ℕ → Option ℕ → Area
unfolding insert_order frame_restack
frame_insert a f pos =
    let b = insert_order a f pos in if a.floating then frame_restack b f none else b
