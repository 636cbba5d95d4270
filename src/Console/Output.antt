-- ===== src/Console/Output.antt =====
-- Operations that print and do nothing else (print_string_internal and printf of kernel/vga.c).
use glass_os.Prelude.{
  ◌≡◌, refl, sym, ap, ◌∙◌, Bool, true, false, List, [], ◌∷◌, ◌++◌, append_assoc, append-nil,
  if◌then◌else◌,
}
use glass_os.Text.{Text}
use glass_os.Screen.{Screen, put_char}
use glass_os.Kernel.{Kernel}
use glass_os.Console.{Arg, print_char, print_bytes, print, printf, format}

unfoldable pub put_chars : Text → Screen → Screen
put_chars [] s = s
put_chars (c ∷ cs) s = put_chars cs (put_char c s)

-- Printing appends the bytes to what left by the two ports and draws them on the screen.
pub print_bytes_lem :
    (s : Text) (k : Kernel)
    → print_bytes s k
      ≡ record k { console = k.console ++ s; serial = k.serial ++ s; screen = put_chars s k.screen }
unfolding print_bytes print_char put_chars
print_bytes_lem [] k = rw (append-nil k.console, append-nil k.serial)
print_bytes_lem (c ∷ cs) k =
    print_bytes_lem cs (print_char c k)
    ∙ rw (append_assoc k.console (c ∷ []) cs, append_assoc k.serial (c ∷ []) cs)

pub print_bytes-append :
    (s t : Text) (k : Kernel) → print_bytes (s ++ t) k ≡ print_bytes t (print_bytes s k)
unfolding print_bytes
print_bytes-append [] t k = refl
print_bytes-append (c ∷ cs) t k = print_bytes-append cs t (print_char c k)

-- The kernel is as it was but for some bytes that were printed.
pub data Prints (k k' : Kernel) : Type 0 where
  printed : (s : Text) → k' ≡ print_bytes s k → Prints k k'

pub Prints-refl : (k : Kernel) → Prints k k
unfolding print_bytes
Prints-refl k = Prints.printed [] refl

pub Prints-trans : {k k' k'' : Kernel} → Prints k k' → Prints k' k'' → Prints k k''
Prints-trans {k} (Prints.printed s p) (Prints.printed t q) =
    Prints.printed (s ++ t) (q ∙ ap (print_bytes t) p ∙ sym (print_bytes-append s t k))

pub print-Prints : (s : Text) (k : Kernel) → Prints k (print s k).1
unfolding print
print-Prints s k = Prints.printed s refl

pub printf-Prints : (f : Text) (args : List Arg) (k : Kernel) → Prints k (printf f args k).1
unfolding printf
printf-Prints f args k = print-Prints (format f args) k

pub if-Prints :
    (b : Bool) {k : Kernel} (x y : Unit {0} × Kernel)
    → Prints k x.1
    → Prints k y.1
    → Prints k (if b then x else y).1
if-Prints true x y p q = p
if-Prints false x y p q = q

pub if_state-Prints :
    (b : Bool) {k : Kernel} (x y : Kernel) → Prints k x → Prints k y → Prints k (if b then x else y)
if_state-Prints true x y p q = p
if_state-Prints false x y p q = q

pub policy-Prints : {k k' : Kernel} → Prints k k' → k'.policy ≡ k.policy
policy-Prints {k} (Prints.printed s e) = ap (λ t. t.policy) (e ∙ print_bytes_lem s k)

pub printf-Prints_then :
    (f : Text) (args : List Arg) {k s : Kernel} → Prints k s → Prints k (printf f args s).1
printf-Prints_then f args {k} {s} p = Prints-trans p (printf-Prints f args s)

pub ruleset printing = (if-Prints, printf-Prints_then, Prints-refl)

-- The reports that read the table parse it first where nobody did: with a policy loaded they do not.
abbrev pub HasPolicy : Kernel → Type 0
HasPolicy k = k.policy.policy_loaded ≡ true
