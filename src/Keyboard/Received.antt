-- ===== src/Keyboard/Received.antt =====
-- keyboard.go: what `keyboardLoop` receives, by kind.
use telnet.Prelude.{
  ◌≡◌, refl, sym, ap, ◌∙◌, true, false, List, [], ◌∷◌, ◌++◌, append-nil, append_assoc,
  if◌then◌else◌, Bool-cases, arith, inl, inr,
}
use telnet.TerminalData.{KeyboardTransport}
use telnet.Keyboard.Loop.{Event, input, unlocked, cancelled, is_command, is_empty}

-- What the events bring.
abbrev pub given : Event → List KeyboardTransport
given (input locked t) = t ∷ []
given (unlocked locked) = []
given cancelled = []

abbrev pub inputs : List Event → List KeyboardTransport
inputs [] = []
inputs (e ∷ es) = given e ++ inputs es

abbrev pub texts : List KeyboardTransport → List KeyboardTransport
texts [] = []
texts (t ∷ ts) = let rest = texts ts in if is_command t then rest else t ∷ rest

abbrev pub commands : List KeyboardTransport → List KeyboardTransport
commands [] = []
commands (t ∷ ts) = let rest = commands ts in if is_command t then t ∷ rest else rest

texts-append : (a b : List KeyboardTransport) → texts (a ++ b) ≡ texts a ++ texts b
texts-append [] b = refl
texts-append (t ∷ a) b = elim (Bool-cases (is_command t)) [
  | inl c ↦ rw (c, texts-append a b) refl
  | inr c ↦ rw (c, texts-append a b) refl
]

commands-append : (a b : List KeyboardTransport) → commands (a ++ b) ≡ commands a ++ commands b
commands-append [] b = refl
commands-append (t ∷ a) b = elim (Bool-cases (is_command t)) [
  | inl c ↦ rw (c, commands-append a b) refl
  | inr c ↦ rw (c, commands-append a b) refl
]

texts_command : (t : KeyboardTransport) → is_command t ≡ true → texts (t ∷ []) ≡ []
texts_command t e = rw e refl

texts_text : (t : KeyboardTransport) → is_command t ≡ false → texts (t ∷ []) ≡ t ∷ []
texts_text t e = rw e refl

commands_command : (t : KeyboardTransport) → is_command t ≡ true → commands (t ∷ []) ≡ t ∷ []
commands_command t e = rw e refl

pub commands_text : (t : KeyboardTransport) → is_command t ≡ false → commands (t ∷ []) ≡ []
commands_text t e = rw e refl

-- A text that comes last, behind what waits or behind nothing that does.
pub texts_last :
    (log queue came : List KeyboardTransport) (t : KeyboardTransport)
    → texts (log ++ queue) ≡ texts came
    → texts (log ++ (queue ++ (t ∷ []))) ≡ texts (came ++ (t ∷ []))
texts_last log queue came t e =
    ap texts (sym (append_assoc log queue (t ∷ [])))
    ∙ (texts-append (log ++ queue) (t ∷ [])
        ∙ (ap (λ ts. ts ++ texts (t ∷ [])) e ∙ sym (texts-append came (t ∷ []))))

-- A command goes before what waits.
pub texts_before :
    (log queue came : List KeyboardTransport) (t : KeyboardTransport)
    → is_command t ≡ true
    → texts (log ++ queue) ≡ texts came
    → texts ((log ++ (t ∷ [])) ++ queue) ≡ texts (came ++ (t ∷ []))
texts_before log queue came t c e =
    texts-append (log ++ (t ∷ [])) queue
    ∙ (ap (λ ts. ts ++ texts queue)
          (texts-append log (t ∷ [])
            ∙ (ap (◌++◌ (texts log)) (texts_command t c) ∙ append-nil (texts log)))
        ∙ (sym (texts-append log queue)
            ∙ (e
                ∙ (sym (append-nil (texts came))
                    ∙ (ap (◌++◌ (texts came)) (sym (texts_command t c))
                        ∙ sym (texts-append came (t ∷ [])))))))

pub commands_last :
    (log came : List KeyboardTransport) (t : KeyboardTransport)
    → commands log ≡ commands came
    → commands (log ++ (t ∷ [])) ≡ commands (came ++ (t ∷ []))
commands_last log came t e =
    commands-append log (t ∷ [])
    ∙ (ap (λ ts. ts ++ commands (t ∷ [])) e ∙ sym (commands-append came (t ∷ [])))

pub commands_more :
    (log more : List KeyboardTransport) → commands more ≡ [] → commands (log ++ more) ≡ commands log
commands_more log more e =
    commands-append log more ∙ (ap (◌++◌ (commands log)) e ∙ append-nil (commands log))

pub is_empty-nil : {A : Type 0} (xs : List A) → is_empty xs ≡ true → xs ≡ []
is_empty-nil [] e = refl
is_empty-nil (x ∷ xs) e = absurd (ground arith)
