-- ===== src/Layout/Areas/Selected.antt =====
-- Which frame `area_setsel` selects.
use wmii.Base.{◌≡◌, refl, ap, ◌∙◌, Bool, true, false, List, [], ◌∷◌, ◌&&◌, if◌then◌else◌, arith}
use wmii.Layout.Stack.{Frame, Place}
use wmii.Layout.Areas.{slide_down, slide_up, area_setsel}

-- Every frame of the list is collapsed.
abbrev pub all_collapsed : List Frame → Bool
all_collapsed [] = true
all_collapsed (f ∷ fs) = f.collapsed && all_collapsed fs

abbrev wholly_collapsed : Place → Bool
wholly_collapsed p = p.frame.collapsed && all_collapsed p.above

pick_collapsed :
    (b : Bool) (p q : Place) (x : Bool)
    → q.frame.collapsed ≡ b
    → p.frame.collapsed ≡ x
    → (if b then p else q).frame.collapsed ≡ (b && x)
pick_collapsed true p q x h k = k
pick_collapsed false p q x h k = h

pick_both :
    (b : Bool) (p q : Place) (x : Bool)
    → q.frame.collapsed ≡ b
    → wholly_collapsed p ≡ x
    → wholly_collapsed (if b then p else q) ≡ (b && x)
pick_both true p q x h k = k
pick_both false p q x h k = ap (λ c. c && all_collapsed q.above) h

slide_up-collapsed :
    (above : List Frame) (f : Frame) (below : List Frame)
    → (slide_up above f below).frame.collapsed ≡ (f.collapsed && all_collapsed above)
unfolding slide_up
slide_up-collapsed [] f below = ground arith
slide_up-collapsed (g ∷ above) f below =
    pick_collapsed f.collapsed (slide_up above g (f ∷ below))
      (record { above = g ∷ above; frame = f; below = below }) (g.collapsed && all_collapsed above)
      refl (slide_up-collapsed above g (f ∷ below))

regroup : (f a g b : Bool) → (f && (g && ((f && a) && b))) ≡ (f && (a && (g && b)))
regroup f a g b = ground arith

add_true : (f a : Bool) → (f && a) ≡ (f && (a && true))
add_true f a = ground arith

slide_down-both :
    (above : List Frame) (f : Frame) (below : List Frame)
    → wholly_collapsed (slide_down above f below)
      ≡ (f.collapsed && (all_collapsed above && all_collapsed below))
unfolding slide_down
slide_down-both above f [] = add_true f.collapsed (all_collapsed above)
slide_down-both above f (g ∷ below) =
    pick_both f.collapsed (slide_down (f ∷ above) g below)
      (record { above = above; frame = f; below = g ∷ below })
      (g.collapsed && ((f.collapsed && all_collapsed above) && all_collapsed below)) refl
      (slide_down-both (f ∷ above) g below)
    ∙ regroup f.collapsed (all_collapsed above) g.collapsed (all_collapsed below)

-- `area_setsel` selects a collapsed frame only where every frame of the column is collapsed.
area_setsel-collapsed :
    (above : List Frame) (f : Frame) (below : List Frame)
    → (area_setsel above f below).frame.collapsed
      ≡ (f.collapsed && (all_collapsed above && all_collapsed below))
unfolding area_setsel
area_setsel-collapsed above f below =
    let p = slide_down above f below in
    slide_up-collapsed p.above p.frame p.below ∙ slide_down-both above f below
