-- ===== src/Config/Ints.antt =====
-- Numbers behind their names (라이브러리/TextPasing.cpp).
