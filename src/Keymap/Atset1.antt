-- ===== src/Keymap/Atset1.antt =====
-- `qemu_input_map_qcode_to_atset1` of gui/keymap.c, from the numbers of `QKeyCode` to scancodes of set 1:
-- the entries that the source writes; all others are 0.
use mvisor_x.Base.{ℕ, List, [], ◌∷◌}

-- the designated entries, in the order of the source
abbrev pub qcode_to_atset1_map : List (ℕ × ℕ)
qcode_to_atset1_map =
    (18, 11)
    ∷ (9, 2)
    ∷ (10, 3)
    ∷ (11, 4)
    ∷ (12, 5)
    ∷ (13, 6)
    ∷ (14, 7)
    ∷ (15, 8)
    ∷ (16, 9)
    ∷ (17, 10)
    ∷ (36, 30)
    ∷ (144, 57450)
    ∷ (147, 57446)
    ∷ (145, 57449)
    ∷ (143, 57394)
    ∷ (146, 57447)
    ∷ (106, 57349)
    ∷ (3, 56)
    ∷ (4, 57400)
    ∷ (46, 40)
    ∷ (59, 55)
    ∷ (136, 57376)
    ∷ (132, 57369)
    ∷ (135, 57378)
    ∷ (133, 57360)
    ∷ (134, 57380)
    ∷ (53, 48)
    ∷ (48, 43)
    ∷ (21, 14)
    ∷ (33, 26)
    ∷ (34, 27)
    ∷ (51, 46)
    ∷ (141, 57377)
    ∷ (61, 58)
    ∷ (56, 51)
    ∷ (119, 57437)
    ∷ (142, 57451)
    ∷ (110, 57464)
    ∷ (5, 29)
    ∷ (6, 57373)
    ∷ (114, 57404)
    ∷ (38, 32)
    ∷ (104, 57427)
    ∷ (57, 52)
    ∷ (101, 57424)
    ∷ (25, 18)
    ∷ (98, 57423)
    ∷ (20, 13)
    ∷ (8, 1)
    ∷ (39, 33)
    ∷ (62, 59)
    ∷ (71, 68)
    ∷ (92, 87)
    ∷ (93, 88)
    ∷ (63, 60)
    ∷ (64, 61)
    ∷ (65, 62)
    ∷ (66, 63)
    ∷ (67, 64)
    ∷ (68, 65)
    ∷ (69, 66)
    ∷ (70, 67)
    ∷ (113, 57409)
    ∷ (109, 57356)
    ∷ (40, 34)
    ∷ (47, 41)
    ∷ (41, 35)
    ∷ (116, 57461)
    ∷ (123, 121)
    ∷ (122, 119)
    ∷ (95, 57415)
    ∷ (30, 23)
    ∷ (103, 57426)
    ∷ (42, 36)
    ∷ (43, 37)
    ∷ (126, 112)
    ∷ (81, 82)
    ∷ (82, 79)
    ∷ (83, 80)
    ∷ (84, 81)
    ∷ (85, 75)
    ∷ (86, 76)
    ∷ (87, 77)
    ∷ (88, 71)
    ∷ (89, 72)
    ∷ (90, 73)
    ∷ (77, 78)
    ∷ (127, 126)
    ∷ (79, 83)
    ∷ (74, 57397)
    ∷ (78, 57372)
    ∷ (128, 89)
    ∷ (75, 55)
    ∷ (76, 74)
    ∷ (44, 38)
    ∷ (99, 57419)
    ∷ (91, 86)
    ∷ (115, 91)
    ∷ (55, 50)
    ∷ (140, 57452)
    ∷ (139, 57453)
    ∷ (7, 57374)
    ∷ (117, 57435)
    ∷ (118, 57436)
    ∷ (19, 12)
    ∷ (125, 123)
    ∷ (54, 49)
    ∷ (72, 69)
    ∷ (31, 24)
    ∷ (111, 100)
    ∷ (32, 25)
    ∷ (112, 101)
    ∷ (120, 57414)
    ∷ (97, 57425)
    ∷ (96, 57417)
    ∷ (129, 57438)
    ∷ (94, 84)
    ∷ (107, 57350)
    ∷ (23, 16)
    ∷ (26, 19)
    ∷ (35, 28)
    ∷ (102, 57421)
    ∷ (121, 115)
    ∷ (37, 31)
    ∷ (73, 70)
    ∷ (45, 39)
    ∷ (1, 42)
    ∷ (2, 54)
    ∷ (58, 53)
    ∷ (130, 57439)
    ∷ (60, 57)
    ∷ (105, 57448)
    ∷ (80, 84)
    ∷ (27, 20)
    ∷ (22, 15)
    ∷ (29, 22)
    ∷ (108, 57351)
    ∷ (100, 57416)
    ∷ (52, 47)
    ∷ (138, 57390)
    ∷ (137, 57392)
    ∷ (24, 17)
    ∷ (131, 57443)
    ∷ (50, 45)
    ∷ (28, 21)
    ∷ (124, 125)
    ∷ (49, 44)
    ∷ []
