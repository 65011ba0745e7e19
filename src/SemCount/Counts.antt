-- ===== src/SemCount/Counts.antt =====
-- What is counted: the lines printed, the posts, the waits and the changes of `idx`.
use git.Base.{ℕ, suc, ◌+◌, ◌≤◌, ◌<◌, ◌≡◌, List, [], ◌∷◌, arith}
use git.Base.Integers.{ℤ, Within, Within-mono}
use git.SemCount.Threads.{
  rounds, Line, product, consum, Making, testing, raising, raised, filling, storing, reading,
  printing, posting, made, outside, Taking, waiting, naming, showing, checking, comparing, lowering,
  lowered, taken, overran, Shared,
}

unfoldable pub products : List Line → ℕ
products [] = 0
products (product x ∷ out) = suc (products out)
products (consum x ∷ out) = products out

unfoldable pub consums : List Line → ℕ
consums [] = 0
consums (product x ∷ out) = consums out
consums (consum x ∷ out) = suc (consums out)

-- Where the producer may stand in round `i`, with what it has printed and raised in that round.
abbrev pub Makes : Making → ℕ → ℕ → ℕ → Type 0
Makes testing i a r = (i ≤ rounds) × (a ≡ 0) × (r ≡ 0)
Makes raising i a r = (i < rounds) × (a ≡ 0) × (r ≡ 0)
Makes (raised v) i a r = (i < rounds) × (a ≡ 0) × (r ≡ 0)
Makes filling i a r = (i < rounds) × (a ≡ 0) × (r ≡ 1)
Makes (storing v) i a r = (i < rounds) × (a ≡ 0) × (r ≡ 1)
Makes reading i a r = (i < rounds) × (a ≡ 0) × (r ≡ 1)
Makes (printing v) i a r = (i < rounds) × (a ≡ 0) × (r ≡ 1)
Makes posting i a r = (i < rounds) × (a ≡ 1) × (r ≡ 1)
Makes made i a r = (i ≡ rounds) × (a ≡ 0) × (r ≡ 0)
Makes outside i a r = (i < rounds) × (a ≡ 0) × (r ≡ 1)

-- What the consumer has waited for and printed since it last took one from `idx`.
abbrev pub Takes : Taking → ℕ → ℕ → Type 0
Takes waiting w d = (w ≡ 0) × (d ≡ 0)
Takes naming w d = (w ≡ 1) × (d ≡ 0)
Takes (showing v) w d = (w ≡ 1) × (d ≡ 0)
Takes checking w d = (w ≡ 1) × (d ≡ 1)
Takes (comparing v) w d = (w ≡ 1) × (d ≡ 1)
Takes lowering w d = (w ≡ 1) × (d ≡ 1)
Takes (lowered v) w d = (w ≡ 1) × (d ≡ 1)
Takes taken w d = (w ≡ 1) × (d ≡ 1)
Takes overran w d = (w ≡ 1) × (d ≤ 1)

-- What the producer has read of `idx` and not yet written is in bounds, and what the consumer has.
abbrev HeldBy1 : ℕ → ℕ → Making → Type 0
HeldBy1 k n (raised v) = Within k n v
HeldBy1 k n p = Unit {0}

abbrev HeldBy2 : ℕ → ℕ → Taking → Type 0
HeldBy2 k n (lowered v) = Within k n v
HeldBy2 k n c = Unit {0}

-- `k` times the consumer has taken one from `idx`.
pub record Tally (p : Making) (c : Taking) (mysem i made_lines taken_lines : ℕ) (idx : ℤ)
    : Type 0 where
  pub a : ℕ
  pub r : ℕ
  pub k : ℕ
  pub w : ℕ
  pub d : ℕ
  pub makes : Makes p i a r
  pub takes : Takes c w d
  pub printed1 : made_lines ≡ i + a
  pub printed2 : taken_lines ≡ k + d
  pub posts : mysem + k + w ≡ i
  pub bounds : Within k (i + r) idx
  pub held1 : HeldBy1 k i p
  pub held2 : HeldBy2 k (i + r) c

abbrev pub Counted : Making → Taking → Shared → Type 0
Counted p c sh = Tally p c sh.mysem sh.i (products sh.out) (consums sh.out) sh.idx

pub HeldBy1-mono : (k k' n : ℕ) (p : Making) → k ≤ k' → HeldBy1 k n p → HeldBy1 k' n p
HeldBy1-mono k k' n testing h m = tt
HeldBy1-mono k k' n raising h m = tt
HeldBy1-mono k k' n (raised v) h m = Within-mono k n k' n v h (omega arith) m
HeldBy1-mono k k' n filling h m = tt
HeldBy1-mono k k' n (storing v) h m = tt
HeldBy1-mono k k' n reading h m = tt
HeldBy1-mono k k' n (printing v) h m = tt
HeldBy1-mono k k' n posting h m = tt
HeldBy1-mono k k' n made h m = tt
HeldBy1-mono k k' n outside h m = tt

pub HeldBy2-mono : (k n n' : ℕ) (c : Taking) → n ≤ n' → HeldBy2 k n c → HeldBy2 k n' c
HeldBy2-mono k n n' waiting h m = tt
HeldBy2-mono k n n' naming h m = tt
HeldBy2-mono k n n' (showing v) h m = tt
HeldBy2-mono k n n' checking h m = tt
HeldBy2-mono k n n' (comparing v) h m = tt
HeldBy2-mono k n n' lowering h m = tt
HeldBy2-mono k n n' (lowered v) h m = Within-mono k n k n' v (omega arith) h m
HeldBy2-mono k n n' taken h m = tt
HeldBy2-mono k n n' overran h m = tt

module _ {p : Making} {c : Taking} {m i x y : ℕ} {v : ℤ} (s : Tally p c m i x y v) where
  -- The producer goes on, with nothing printed, raised or posted.
  pub goes1 : (p' : Making) → Makes p' i s.a s.r → HeldBy1 s.k i p' → Tally p' c m i x y v
  goes1 p' places h = record {
    a = s.a;
    r = s.r;
    k = s.k;
    w = s.w;
    d = s.d;
    makes = places;
    takes = s.takes;
    printed1 = s.printed1;
    printed2 = s.printed2;
    posts = s.posts;
    bounds = s.bounds;
    held1 = h;
    held2 = s.held2;
  }

  -- The consumer goes on, with nothing printed, taken or waited for.
  pub goes2 : (c' : Taking) → Takes c' s.w s.d → HeldBy2 s.k (i + s.r) c' → Tally p c' m i x y v
  goes2 c' places h = record {
    a = s.a;
    r = s.r;
    k = s.k;
    w = s.w;
    d = s.d;
    makes = s.makes;
    takes = places;
    printed1 = s.printed1;
    printed2 = s.printed2;
    posts = s.posts;
    bounds = s.bounds;
    held1 = s.held1;
    held2 = h;
  }
