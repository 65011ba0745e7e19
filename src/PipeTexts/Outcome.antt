-- ===== src/PipeTexts/Outcome.antt =====
-- What the two processes of pipe.c come to, in every order of their calls.
use git.Base.{◌≡◌, ◌⊎◌, inl, inr, refl, true, List, [], ◌∷◌, ◌++◌}
use git.Base.Bytes.{Bytes}
use git.Steps.{Reach-keeps, Keeps, moved}
use git.PipeTexts.Processes.{
  text1, text2, Line, wrote1, wrote2, has_read, ParentPlace, writing1, writing2, closing, waiting,
  parent_exit, killed, ChildPlace, reading, closing_read, child_exit, State, has_reader, has_writer,
  put_text, parent_step, read_pipe, child_step, Process, father, son, step, forked, Reached,
}

abbrev said1 : List Line
said1 = wrote1 ∷ []

abbrev said2 : List Line
said2 = wrote2 ∷ wrote1 ∷ []

abbrev pub told1 : List Line
told1 = has_read 10 text1 ∷ []

abbrev pub told2 : List Line
told2 = has_read 20 (text1 ++ text2) ∷ []

-- Behind the second `write`: where the child is, what is in the pipe, and what the child has printed.
data Late : ChildPlace → Bytes → List Line → Type 0 where
  unread : Late reading (text1 ++ text2) []
  both : Late closing_read [] told2
  one : Late closing_read text2 told1
  both_out : Late child_exit [] told2
  one_out : Late child_exit text2 told1

data At : ParentPlace → ChildPlace → Bytes → List Line → List Line → Type 0 where
  nothing : At writing1 reading [] [] []
  sent1 : At writing2 reading text1 said1 []
  read1 : At writing2 closing_read [] said1 told1
  out1 : At writing2 child_exit [] said1 told1
  lost : At killed child_exit [] said1 told1
  sent2 : {c : ChildPlace} {b : Bytes} {t : List Line} → Late c b t → At closing c b said2 t
  closed : {c : ChildPlace} {b : Bytes} {t : List Line} → Late c b t → At waiting c b said2 t
  ended2 : At parent_exit child_exit [] said2 told2
  ended1 : At parent_exit child_exit text2 said2 told1

abbrev state : ParentPlace → ChildPlace → Bytes → List Line → List Line → State
state p c b sd t = record { parent_at = p; child_at = c; pipe = b; said = sd; told = t }

abbrev Known : State → Type 0
Known s = At s.parent_at s.child_at s.pipe s.said s.told

father-Known :
    {p : ParentPlace} {c : ChildPlace} {b : Bytes} {sd t : List Line}
    → At p c b sd t
    → Keeps Known (parent_step (state p c b sd t) p)
unfolding parent_step put_text has_reader
father-Known nothing = sent1
father-Known sent1 = sent2 unread
father-Known read1 = sent2 one
father-Known out1 = lost
father-Known lost = tt
father-Known (sent2 l) = closed l
father-Known (closed unread) = tt
father-Known (closed both) = tt
father-Known (closed one) = tt
father-Known (closed both_out) = ended2
father-Known (closed one_out) = ended1
father-Known ended2 = tt
father-Known ended1 = tt

Late-next :
    {p : ParentPlace} {c : ChildPlace} {b : Bytes} {t : List Line}
    → ((c : ChildPlace) (b : Bytes) (t : List Line) → Late c b t → At p c b said2 t)
    → Late c b t
    → Keeps Known (child_step (state p c b said2 t) c)
unfolding child_step read_pipe
Late-next at unread = at _ _ _ both
Late-next at both = at _ _ _ both_out
Late-next at one = at _ _ _ one_out
Late-next at both_out = tt
Late-next at one_out = tt

son-Known :
    {p : ParentPlace} {c : ChildPlace} {b : Bytes} {sd t : List Line}
    → At p c b sd t
    → Keeps Known (child_step (state p c b sd t) c)
unfolding child_step read_pipe has_writer
son-Known nothing = tt
son-Known sent1 = read1
son-Known read1 = out1
son-Known out1 = tt
son-Known lost = tt
son-Known (sent2 l) = Late-next (λ _ _ _ x. sent2 x) l
son-Known (closed l) = Late-next (λ _ _ _ x. closed x) l
son-Known ended2 = tt
son-Known ended1 = tt

step-Known : (a : Process) (s : State) → Known s → Keeps Known (step a s)
unfolding step
step-Known father s k = father-Known k
step-Known son s k = son-Known k

-- One of the processes can make its next call.
abbrev pub CanMove : State → Type 0
CanMove s = (moved (step father s) ≡ true) ⊎ (moved (step son s) ≡ true)

-- The parent has written both texts; or it is killed, with only the first written.
abbrev pub Ended : State → Type 0
Ended s =
    (s.child_at ≡ child_exit)
    × (((s.parent_at ≡ parent_exit) × (s.said ≡ said2) × ((s.told ≡ told2) ⊎ (s.told ≡ told1)))
        ⊎ ((s.parent_at ≡ killed) × (s.said ≡ said1) × (s.told ≡ told1)))

At-ends :
    {p : ParentPlace} {c : ChildPlace} {b : Bytes} {sd t : List Line}
    → At p c b sd t
    → CanMove (state p c b sd t) ⊎ Ended (state p c b sd t)
unfolding step parent_step child_step put_text has_reader read_pipe
At-ends nothing = inl (inl refl)
At-ends sent1 = inl (inl refl)
At-ends read1 = inl (inl refl)
At-ends out1 = inl (inl refl)
At-ends lost = inr (refl, inr (refl, refl, refl))
At-ends (sent2 l) = inl (inl refl)
At-ends (closed unread) = inl (inr refl)
At-ends (closed both) = inl (inr refl)
At-ends (closed one) = inl (inr refl)
At-ends (closed both_out) = inl (inl refl)
At-ends (closed one_out) = inl (inl refl)
At-ends ended2 = inr (refl, inl (refl, refl, inl refl))
At-ends ended1 = inr (refl, inl (refl, refl, inr refl))

-- The processes of pipe.c never wait for ever, whatever the order of their calls: one can go on, or the
-- child has ended, and either the parent has ended after writing both texts, of which the child has
-- printed both or the first, or SIGPIPE has killed it after the first, which the child has printed.
pub Reached-ends : {s : State} → Reached s → CanMove s ⊎ Ended s
Reached-ends {s} r = At-ends (Reach-keeps step forked Known nothing step-Known r)
