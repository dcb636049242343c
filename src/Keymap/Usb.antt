-- ===== src/Keymap/Usb.antt =====
-- `qemu_input_map_usb_to_qcode` of gui/keymap.c, from USB usages to the numbers of `QKeyCode`:
-- the entries that the source writes; all others are 0.
use mvisor_x.Base.{ℕ, List, [], ◌∷◌}

-- the designated entries, in the order of the source
abbrev pub usb_to_qcode : List (ℕ × ℕ)
usb_to_qcode =
    (4, 36)
    ∷ (5, 53)
    ∷ (6, 51)
    ∷ (7, 38)
    ∷ (8, 25)
    ∷ (9, 39)
    ∷ (10, 40)
    ∷ (11, 41)
    ∷ (12, 30)
    ∷ (13, 42)
    ∷ (14, 43)
    ∷ (15, 44)
    ∷ (16, 55)
    ∷ (17, 54)
    ∷ (18, 31)
    ∷ (19, 32)
    ∷ (20, 23)
    ∷ (21, 26)
    ∷ (22, 37)
    ∷ (23, 27)
    ∷ (24, 29)
    ∷ (25, 52)
    ∷ (26, 24)
    ∷ (27, 50)
    ∷ (28, 28)
    ∷ (29, 49)
    ∷ (30, 9)
    ∷ (31, 10)
    ∷ (32, 11)
    ∷ (33, 12)
    ∷ (34, 13)
    ∷ (35, 14)
    ∷ (36, 15)
    ∷ (37, 16)
    ∷ (38, 17)
    ∷ (39, 18)
    ∷ (40, 35)
    ∷ (41, 8)
    ∷ (42, 21)
    ∷ (43, 22)
    ∷ (44, 60)
    ∷ (45, 19)
    ∷ (46, 20)
    ∷ (47, 33)
    ∷ (48, 34)
    ∷ (49, 48)
    ∷ (50, 48)
    ∷ (51, 45)
    ∷ (52, 46)
    ∷ (53, 47)
    ∷ (54, 56)
    ∷ (55, 57)
    ∷ (56, 58)
    ∷ (57, 61)
    ∷ (58, 62)
    ∷ (59, 63)
    ∷ (60, 64)
    ∷ (61, 65)
    ∷ (62, 66)
    ∷ (63, 67)
    ∷ (64, 68)
    ∷ (65, 69)
    ∷ (66, 70)
    ∷ (67, 71)
    ∷ (68, 92)
    ∷ (69, 93)
    ∷ (70, 80)
    ∷ (71, 73)
    ∷ (72, 120)
    ∷ (73, 103)
    ∷ (74, 95)
    ∷ (75, 96)
    ∷ (76, 104)
    ∷ (77, 98)
    ∷ (78, 97)
    ∷ (79, 102)
    ∷ (80, 99)
    ∷ (81, 101)
    ∷ (82, 100)
    ∷ (83, 72)
    ∷ (84, 74)
    ∷ (85, 75)
    ∷ (86, 76)
    ∷ (87, 77)
    ∷ (88, 78)
    ∷ (89, 82)
    ∷ (90, 83)
    ∷ (91, 84)
    ∷ (92, 85)
    ∷ (93, 86)
    ∷ (94, 87)
    ∷ (95, 88)
    ∷ (96, 89)
    ∷ (97, 90)
    ∷ (98, 81)
    ∷ (99, 79)
    ∷ (100, 91)
    ∷ (101, 119)
    ∷ (102, 129)
    ∷ (103, 128)
    ∷ (104, 0)
    ∷ (105, 0)
    ∷ (106, 0)
    ∷ (107, 0)
    ∷ (108, 0)
    ∷ (109, 0)
    ∷ (110, 0)
    ∷ (111, 0)
    ∷ (112, 0)
    ∷ (113, 0)
    ∷ (114, 0)
    ∷ (115, 0)
    ∷ (116, 111)
    ∷ (117, 116)
    ∷ (118, 7)
    ∷ (119, 109)
    ∷ (120, 105)
    ∷ (121, 106)
    ∷ (122, 108)
    ∷ (123, 114)
    ∷ (124, 110)
    ∷ (125, 112)
    ∷ (126, 113)
    ∷ (127, 136)
    ∷ (128, 137)
    ∷ (129, 138)
    ∷ (133, 127)
    ∷ (135, 121)
    ∷ (136, 126)
    ∷ (137, 124)
    ∷ (138, 123)
    ∷ (139, 125)
    ∷ (140, 0)
    ∷ (144, 0)
    ∷ (145, 0)
    ∷ (146, 0)
    ∷ (147, 122)
    ∷ (148, 0)
    ∷ (182, 0)
    ∷ (183, 0)
    ∷ (224, 5)
    ∷ (225, 1)
    ∷ (226, 3)
    ∷ (227, 117)
    ∷ (228, 6)
    ∷ (229, 2)
    ∷ (230, 4)
    ∷ (231, 118)
    ∷ (232, 135)
    ∷ (233, 134)
    ∷ (234, 133)
    ∷ (235, 132)
    ∷ (236, 0)
    ∷ (237, 137)
    ∷ (238, 138)
    ∷ (239, 136)
    ∷ (240, 0)
    ∷ (241, 144)
    ∷ (242, 145)
    ∷ (243, 105)
    ∷ (244, 113)
    ∷ (245, 0)
    ∷ (246, 0)
    ∷ (247, 0)
    ∷ (248, 130)
    ∷ (249, 0)
    ∷ (250, 146)
    ∷ (251, 141)
    ∷ []
