-- ===== src/Examples/Printing.antt =====
-- The theorems on formatted printing, applied.
use libtask_annotation.Base.{ℕ, arith, false, List, [], ◌∷◌, Text, codes}
use libtask_annotation.Print.{Arg, word, text, vseprint}
use libtask_annotation.Print.Number.{Verb}
use libtask_annotation.Print.Bounds.{StaysInside, vseprint-Inside}

-- A format that needs more than the 8 bytes from 1000 on, and its arguments.
abbrev greeting : Text
greeting = codes "%d.%-5s: %x!"

abbrev greeting_args : List Arg
greeting_args = word 42 ∷ text (codes "net") ∷ word 255 ∷ []

vseprint-Inside_example :
    StaysInside (λ a. a) 1000 1008 (vseprint [] (λ a. a) 1000 1008 greeting greeting_args)
vseprint-Inside_example = vseprint-Inside [] (λ a. a) 1000 1008 greeting greeting_args (omega arith)

-- `%d`
abbrev decimal : Verb
decimal = record { size = 0; left = false; long = false; longlong = false; unsigned = false }

-- -255
abbrev negative : ℕ
negative = 4294967041
