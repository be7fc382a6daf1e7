-- ===== src/Link/Section/Exclusive.antt =====
-- That one thread at most is in the section, and that no thread waits for a signal that does not come.
use wtf.Prelude.{
  ℕ, zero, suc, ◌<◌, ◌≡◌, refl, ap, true, false, some, if◌then◌else◌, length, arith, word,
  get_elem?,
}
use wtf.Link.Section.{
  Phase, outside, inside, Section, new_section, all_outside, count, is_asleep, is_woken, is_inside,
  Reached, start, next,
}
use wtf.Link.Section.Counts.{waiters, Inv}
use wtf.Link.Section.Steps.{Step-Inv}

length-all_outside : (n : ℕ) → length (all_outside n) ≡ n
length-all_outside zero = refl
length-all_outside (suc n) = ap suc (length-all_outside n)

none_yet : (f : Phase → ℕ) (n : ℕ) → f outside ≡ 0 → count f (all_outside n) ≡ 0
none_yet f zero e = refl
none_yet f (suc n) e = omega (arith, e, none_yet f n e)

new_section-Inv : (n : ℕ) → n < word → Inv (new_section n)
new_section-Inv n h = record {
  core = record {
    few = omega (arith, h, length-all_outside n);
    counted = omega (arith, none_yet is_asleep n refl, none_yet is_woken n refl);
    one = none_yet is_inside n refl;
    kills = λ f. absurd (cc);
  };
  awake = λ f g. absurd (omega (arith, g));
}

pub Reached-Inv : (n : ℕ) (s : Section) → n < word → Reached n s → Inv s
Reached-Inv n _ h start = new_section-Inv n h
Reached-Inv n _ h (next {s} {t} r a) = Step-Inv s t a (Reached-Inv n s h r)

-- However fewer than 2 ^ 64 threads enter, wait, wake and leave, the section holds one of them where it
-- is locked, and none where it is not.
pub one_inside :
    (n : ℕ) (s : Section)
    → n < word
    → Reached n s
    → count is_inside s.threads ≡ (if s.locked then 1 else 0)
one_inside n s h r = (Reached-Inv n s h r).core.one

-- However fewer than 2 ^ 64 threads enter, wait, wake and leave: where the section is not locked and a
-- thread stands in `m_cond.wait`, one of those that do has woken, and will try again.
pub no_lost_signal :
    (n : ℕ) (s : Section)
    → n < word
    → Reached n s
    → s.locked ≡ false
    → 0 < waiters s.threads
    → 0 < count is_woken s.threads
no_lost_signal n s h r e w =
    let v = Reached-Inv n s h r in v.awake e (omega (arith, v.core.counted, w))

-- However fewer than 2 ^ 64 threads enter, wait, wake and leave, the thread that a waiting one signals
-- is in the section, and entered it by `enter_critical_section_killable`.
pub kills_inside :
    (n : ℕ) (s : Section)
    → n < word
    → Reached n s
    → s.kill ≡ true
    → get_elem? s.to_kill s.threads ≡ some (inside true)
kills_inside n s h r e = (Reached-Inv n s h r).core.kills e
