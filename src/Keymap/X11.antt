-- ===== src/Keymap/X11.antt =====
-- `qemu_input_map_x11_to_qcode` of gui/keymap.c, from X11 key symbols to the numbers of `QKeyCode`:
-- the entries that the source writes; all others are 0.
use mvisor_x.Base.{ℕ, List, [], ◌∷◌}

-- the designated entries, in the order of the source
abbrev pub x11_to_qcode : List (ℕ × ℕ)
x11_to_qcode =
    (32, 60)
    ∷ (33, 9)
    ∷ (34, 46)
    ∷ (35, 11)
    ∷ (36, 12)
    ∷ (37, 13)
    ∷ (38, 15)
    ∷ (39, 46)
    ∷ (40, 17)
    ∷ (41, 18)
    ∷ (42, 16)
    ∷ (43, 20)
    ∷ (44, 56)
    ∷ (45, 19)
    ∷ (46, 57)
    ∷ (47, 58)
    ∷ (48, 18)
    ∷ (49, 9)
    ∷ (50, 10)
    ∷ (51, 11)
    ∷ (52, 12)
    ∷ (53, 13)
    ∷ (54, 14)
    ∷ (55, 15)
    ∷ (56, 16)
    ∷ (57, 17)
    ∷ (58, 45)
    ∷ (59, 45)
    ∷ (60, 56)
    ∷ (61, 20)
    ∷ (62, 57)
    ∷ (63, 58)
    ∷ (64, 10)
    ∷ (65, 36)
    ∷ (66, 53)
    ∷ (67, 51)
    ∷ (68, 38)
    ∷ (69, 25)
    ∷ (70, 39)
    ∷ (71, 40)
    ∷ (72, 41)
    ∷ (73, 30)
    ∷ (74, 42)
    ∷ (75, 43)
    ∷ (76, 44)
    ∷ (77, 55)
    ∷ (78, 54)
    ∷ (79, 31)
    ∷ (80, 32)
    ∷ (81, 23)
    ∷ (82, 26)
    ∷ (83, 37)
    ∷ (84, 27)
    ∷ (85, 29)
    ∷ (86, 52)
    ∷ (87, 24)
    ∷ (88, 50)
    ∷ (89, 28)
    ∷ (90, 49)
    ∷ (91, 33)
    ∷ (92, 91)
    ∷ (93, 34)
    ∷ (94, 14)
    ∷ (95, 19)
    ∷ (96, 47)
    ∷ (97, 36)
    ∷ (98, 53)
    ∷ (99, 51)
    ∷ (100, 38)
    ∷ (101, 25)
    ∷ (102, 39)
    ∷ (103, 40)
    ∷ (104, 41)
    ∷ (105, 30)
    ∷ (106, 42)
    ∷ (107, 43)
    ∷ (108, 44)
    ∷ (109, 55)
    ∷ (110, 54)
    ∷ (111, 31)
    ∷ (112, 32)
    ∷ (113, 23)
    ∷ (114, 26)
    ∷ (115, 37)
    ∷ (116, 27)
    ∷ (117, 29)
    ∷ (118, 52)
    ∷ (119, 24)
    ∷ (120, 50)
    ∷ (121, 28)
    ∷ (122, 49)
    ∷ (123, 33)
    ∷ (124, 48)
    ∷ (125, 34)
    ∷ (126, 47)
    ∷ (215, 75)
    ∷ (65288, 21)
    ∷ (65289, 22)
    ∷ (65293, 35)
    ∷ (65299, 120)
    ∷ (65300, 73)
    ∷ (65301, 80)
    ∷ (65307, 8)
    ∷ (65314, 125)
    ∷ (65315, 123)
    ∷ (65317, 122)
    ∷ (65318, 0)
    ∷ (65319, 126)
    ∷ (65322, 0)
    ∷ (65360, 95)
    ∷ (65361, 99)
    ∷ (65362, 100)
    ∷ (65363, 102)
    ∷ (65364, 101)
    ∷ (65365, 96)
    ∷ (65366, 97)
    ∷ (65367, 98)
    ∷ (65376, 0)
    ∷ (65379, 103)
    ∷ (65383, 119)
    ∷ (65386, 116)
    ∷ (65407, 72)
    ∷ (65421, 78)
    ∷ (65451, 77)
    ∷ (65452, 0)
    ∷ (65453, 76)
    ∷ (65454, 79)
    ∷ (65455, 74)
    ∷ (65456, 81)
    ∷ (65457, 82)
    ∷ (65458, 83)
    ∷ (65459, 84)
    ∷ (65460, 85)
    ∷ (65461, 86)
    ∷ (65462, 87)
    ∷ (65463, 88)
    ∷ (65464, 89)
    ∷ (65465, 90)
    ∷ (65469, 128)
    ∷ (65470, 62)
    ∷ (65471, 63)
    ∷ (65472, 64)
    ∷ (65473, 65)
    ∷ (65474, 66)
    ∷ (65475, 67)
    ∷ (65476, 68)
    ∷ (65477, 69)
    ∷ (65478, 70)
    ∷ (65479, 71)
    ∷ (65480, 92)
    ∷ (65481, 93)
    ∷ (65505, 1)
    ∷ (65506, 2)
    ∷ (65507, 5)
    ∷ (65508, 6)
    ∷ (65509, 61)
    ∷ (65511, 117)
    ∷ (65512, 118)
    ∷ (65513, 3)
    ∷ (65514, 4)
    ∷ (65515, 117)
    ∷ (65516, 118)
    ∷ (65535, 104)
    ∷ []
