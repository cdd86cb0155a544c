-- ===== src/Client/Views.antt =====
-- cmd/wmii/client.c, `client_setviews`: the frames of a client are made to be those of its tags; and
-- cmd/wmii/frame.c, `frame_swap`. A frame is known by its `id`, and `view` is the name of its view.
pub mod Merge
pub mod Kept
use Prim.Native.Nat.{Ordering}
use wmii.Base.{
  ℕ, ◌≡◌, Bool, true, false, Option, none, some, List, [], ◌∷◌, ◌++◌, ◌==◌, if◌then◌else◌, map,
}
use wmii.Base.Str.{CString, strcmp}

pub record Frame : Type 0 where
  pub id : ℕ
  pub view : CString

-- What happens to the frames: one that is detached and freed, one that is created and attached.
pub data Event : Type 0 where
  detached attached : Frame → Event

-- The inner loop: the frames whose view comes before the tag are detached, and the rest is left.
pub record Passed : Type 0 where
  pub events : List Event
  pub rest : List Frame

abbrev pub pass_frame : Frame → Passed → Passed
pass_frame f p = record { events = detached f ∷ p.events; rest = p.rest }

abbrev pub by_cmp : Ordering → Frame → List Frame → Passed → Passed
by_cmp Ordering.lt f fs p = pass_frame f p
by_cmp Ordering.eq f fs p = record { events = []; rest = f ∷ fs }
by_cmp Ordering.gt f fs p = record { events = []; rest = f ∷ fs }

unfoldable pub pass_below : CString → List Frame → Passed
unfolding strcmp
pass_below tag [] = record { events = []; rest = [] }
pass_below tag (f ∷ fs) = by_cmp (strcmp f.view tag) f fs (pass_below tag fs)

-- With no tag left every frame is detached.
unfoldable pub detach_all : List Frame → List Event
detach_all [] = []
detach_all (f ∷ fs) = detached f ∷ detach_all fs

-- The frames of the client and what was done, from a place in the list on.
pub record Merged : Type 0 where
  pub events : List Event
  pub frames : List Frame

abbrev pub after_events : List Event → Merged → Merged
after_events es m = record { events = es ++ m.events; frames = m.frames }

-- `view_create` of a view that is new calls `client_applytags` of every client, this one too: `behind`
-- is what `*fp` leads to once it has returned. `create` is the frame that `frame_create` makes.
pub record Creation : Type 0 where
  pub create : CString → Frame
  pub behind : CString → List Frame → List Frame

module _ (lib : Creation) where
  open lib use {create, behind}

  -- Where a new frame is linked in, the loop goes on behind it.
  abbrev pub link_new : CString → (List Frame → Merged) → List Frame → Merged
  link_new tag go rest =
      let m = go (behind tag rest) in
      record { events = attached (create tag) ∷ m.events; frames = create tag ∷ m.frames }

  -- `if(!*fp || cmp > 0)`; after the inner loop `cmp` is that of the frame at `*fp`.
  abbrev pub at_frame : Ordering → CString → (List Frame → Merged) → Frame → List Frame → Merged
  at_frame Ordering.gt tag go f fs = link_new tag go (f ∷ fs)
  at_frame Ordering.eq tag go f fs =
      let kept = go fs in record { events = kept.events; frames = f ∷ kept.frames }
  at_frame Ordering.lt tag go f fs =
      let kept = go fs in record { events = kept.events; frames = f ∷ kept.frames }

  unfoldable pub at_place : CString → (List Frame → Merged) → List Frame → Merged
  unfolding strcmp
  at_place tag go [] = link_new tag go []
  at_place tag go (f ∷ fs) = at_frame (strcmp f.view tag) tag go f fs

  unfoldable pub client_setviews : List CString → List Frame → Merged
  unfolding pass_below detach_all at_place
  client_setviews [] fs = record { events = detach_all fs; frames = [] }
  client_setviews (tag ∷ tags) fs =
      after_events (pass_below tag fs).events
        (at_place tag (client_setviews tags) (pass_below tag fs).rest)

-- The loop for `*fp == fa`, which is always in the list of its client.
unfoldable pub unlink : ℕ → List Frame → List Frame
unlink i [] = []
unlink i (f ∷ fs) = let rest = unlink i fs in if f.id == i then fs else f ∷ rest

-- `frame_swap` on the lists of two clients: the frame of each is unlinked, and that of the other goes
-- to the head.
unfoldable pub frame_swap : Frame → Frame → List Frame → List Frame → List Frame × List Frame
unfolding unlink
frame_swap fa fb ca cb =
    if fa.id == fb.id then (ca, cb) else (fb ∷ unlink fa.id ca, fa ∷ unlink fb.id cb)
