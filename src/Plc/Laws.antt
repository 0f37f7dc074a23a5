-- ===== src/Plc/Laws.antt =====
-- The tag of plctag/simple/main/simple.c is destroyed, and its sleep is as long as was asked for.
use esp_network_examples.Prelude.{
  ℕ, zero, suc, ◌+◌, ◌*◌, ◌/◌, ◌<◌, ℤ, pos, negsuc, is_neg, is_zero, true, [], ◌∷◌, some, ◌≡◌, inl,
  inr, refl, arith, Bool-cases, if◌then◌else◌, ◌==◌,
}
use esp_network_examples.Os.{Env, Trace}
use esp_network_examples.Plc.{
  Call, check_version, create, read_tag, write_tag, destroy, print_from, update_from, read_back,
  write_back, update_tag, use_tag, create_tag, libplctag_main, sleep_of,
}

abbrev one : ℕ → ℤ → ℕ
one d (pos n) = if d == n then 1 else 0
one d (negsuc n) = 0

abbrev pub creations : ℕ → Trace Call → ℕ
creations d [] = 0
creations d ((create, a) ∷ t) = one d a.ret + creations d t
creations d (_ ∷ t) = creations d t

abbrev pub destructions : ℕ → Trace Call → ℕ
destructions d [] = 0
destructions d ((destroy tag, a) ∷ t) = one d tag + destructions d t
destructions d (_ ∷ t) = destructions d t

abbrev Balanced : ℕ → ℕ → Trace Call → Type 0
Balanced d k t = creations d t ≡ destructions d t + k

print_from-Balanced :
    (env : Env Call) (d k : ℕ) (tag size : ℤ) (i n : ℕ) (t : Trace Call)
    → Balanced d k t
    → Balanced d k (print_from env tag size i n t).1
unfolding print_from
print_from-Balanced env d k tag size i zero t h = h
print_from-Balanced env d k tag size i (suc n) t h =
    print_from-Balanced env d k tag size (i + 1) n _ h

update_from-Balanced :
    (env : Env Call) (d k : ℕ) (tag size : ℤ) (i n : ℕ) (t : Trace Call)
    → Balanced d k t
    → Balanced d k (update_from env tag size i n t).1
unfolding update_from
update_from-Balanced env d k tag size i zero t h = h
update_from-Balanced env d k tag size i (suc n) t h =
    update_from-Balanced env d k tag size (i + 1) n _ h

read_back-Balanced :
    (env : Env Call) (d : ℕ) (tag size : ℤ) (n : ℕ) (t : Trace Call)
    → Balanced d (one d tag) t
    → Balanced d 0 (read_back env tag size n t).1
unfolding read_back
read_back-Balanced env d tag size n t h =
    let t' : Trace Call = (read_tag tag, env t (read_tag tag)) ∷ t in
    elim (Bool-cases (is_zero (env t (read_tag tag)).ret)) [
      | inl e ↦ rw e (omega (arith, print_from-Balanced env d (one d tag) tag size 0 n t' h))
      | inr e ↦ rw e (omega arith)
    ]

write_back-Balanced :
    (env : Env Call) (d : ℕ) (tag size : ℤ) (n : ℕ) (t : Trace Call)
    → Balanced d (one d tag) t
    → Balanced d 0 (write_back env tag size n t).1
unfolding write_back
write_back-Balanced env d tag size n t h = elim (Bool-cases (is_zero (env t (write_tag tag)).ret)) [
  | inl e ↦
      rw e (read_back-Balanced env d tag size n ((write_tag tag, env t (write_tag tag)) ∷ t) h)
  | inr e ↦ rw e (omega arith)
]

update_tag-Balanced :
    (env : Env Call) (d : ℕ) (tag : ℤ) (t : Trace Call)
    → Balanced d (one d tag) t
    → Balanced d 0 (update_tag env tag t).1
unfolding update_tag
update_tag-Balanced env d tag t h = write_back-Balanced env d tag _ _ _ (
    update_from-Balanced env d (one d tag) tag _ 0 _ _
      (print_from-Balanced env d (one d tag) tag _ 0 _ _ h))

use_tag-Balanced :
    (env : Env Call) (d : ℕ) (tag : ℤ) (t : Trace Call)
    → Balanced d (one d tag) t
    → Balanced d 0 (use_tag env tag t).1
unfolding use_tag
use_tag-Balanced env d tag t h = elim (Bool-cases (is_zero (env t (read_tag tag)).ret)) [
  | inl e ↦ rw e (update_tag-Balanced env d tag ((read_tag tag, env t (read_tag tag)) ∷ t) h)
  | inr e ↦ rw e (omega arith)
]

one_neg : (d : ℕ) (s : ℤ) → is_neg s ≡ true → one d s ≡ 0
one_neg d (pos n) h = absurd (cc)
one_neg d (negsuc n) h = refl

create_tag-Balanced :
    (env : Env Call) (d : ℕ) (t : Trace Call) → Balanced d 0 t → Balanced d 0 (create_tag env t).1
unfolding create_tag
create_tag-Balanced env d t h = elim (Bool-cases (is_neg (env t create).ret)) [
  | inl e ↦ rw e (omega (arith, one_neg d (env t create).ret e))
  | inr e ↦
      rw e (use_tag-Balanced env d (env t create).ret ((create, env t create) ∷ t) (omega arith))
]

-- Whatever the library answers: on every way through the program each tag is destroyed exactly as
-- often as it was created.
pub libplctag_main-Balanced :
    (env : Env Call) (d : ℕ)
    → creations d (libplctag_main env []).1 ≡ destructions d (libplctag_main env []).1
unfolding libplctag_main
libplctag_main-Balanced env d = elim (Bool-cases (is_zero (env [] check_version).ret)) [
  | inl e ↦
      rw e
        (omega (arith, create_tag-Balanced env d ((check_version, env [] check_version) ∷ []) refl))
  | inr e ↦ rw e
]

-- Below 4294 seconds the sleep asked for is the time of the request, cut to whole microseconds.
pub sleep_of-microseconds :
    (sec nsec : ℕ)
    → sec < 4294
    → nsec < 1000000000
    → sleep_of (pos sec) (pos nsec) ≡ some (sec * 1000000 + nsec / 1000)
unfolding sleep_of
sleep_of-microseconds sec nsec h k = ground arith
