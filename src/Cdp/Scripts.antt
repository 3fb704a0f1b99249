-- ===== src/Cdp/Scripts.antt =====
-- The scripts of prax_sandbox/cdp_service.py that find an element, with json.dumps as a parameter.
use prax_sandbox.Base.{[], ◌∷◌}
use prax_sandbox.Text.{Text, codes}
use prax_sandbox.Cdp.Send.{concat}

-- The script of `click_element`.
unfoldable pub element_script : (Text → Text) → Text → Text
element_script dumps selector = concat (
    codes "\n                (() => {\n                    const el = document.querySelector("
    ∷ dumps selector
    ∷ codes ");\n"
    ∷ codes "                    if (!el) return JSON.stringify({error: 'Element not found: "
    ∷ selector
    ∷ codes "'});\n"
    ∷ codes "                    const rect = el.getBoundingClientRect();\n"
    ∷ codes "                    return JSON.stringify({\n"
    ∷ codes "                        x: Math.round(rect.x + rect.width / 2),\n"
    ∷ codes "                        y: Math.round(rect.y + rect.height / 2),\n"
    ∷ codes "                    });\n"
    ∷ codes "                })()\n"
    ∷ codes "            "
    ∷ [])

-- The script of `click_text`.
unfoldable pub text_script : (Text → Text) → Text → Text
text_script dumps text = concat (
    codes "\n        (() => {\n            const target = "
    ∷ dumps text
    ∷ codes ".toLowerCase();\n"
    ∷ codes "            // Walk ALL elements — modern SPAs use custom tags, roles, etc.\n"
    ∷ codes "            const all = document.querySelectorAll('*');\n"
    ∷ codes "            let best = null;\n"
    ∷ codes "            let bestLen = Infinity;\n"
    ∷ codes "            for (const el of all) {\n"
    ∷ codes "                // Skip non-leaf containers with too much text (body, main, etc.)\n"
    ∷ codes "                const t = (el.innerText || el.textContent || el.value || '').trim();\n"
    ∷ codes "                if (!t || t.length > 500) continue;\n"
    ∷ codes "                if (t.toLowerCase().includes(target) && t.length < bestLen) {\n"
    ∷ codes "                    const rect = el.getBoundingClientRect();\n"
    ∷ codes "                    // Must be visible and have size\n"
    ∷ codes
        "                    if (rect.width > 0 && rect.height > 0 && rect.bottom > 0 && rect.right > 0) {\n"
    ∷ codes
        "                        best = { x: Math.round(rect.x + rect.width / 2), y: Math.round(rect.y + rect.height / 2), matched: t.substring(0, 80) };\n"
    ∷ codes "                        bestLen = t.length;\n"
    ∷ codes "                    }\n"
    ∷ codes "                }\n"
    ∷ codes "            }\n"
    ∷ codes
        "            if (!best) return JSON.stringify({ error: 'No visible element with text: ' + "
    ∷ dumps text
    ∷ codes " });\n            return JSON.stringify(best);\n        })()\n    "
    ∷ [])

-- The script of `get_page_url`.
abbrev pub url_script : Text
url_script = codes "JSON.stringify({url: location.href, title: document.title})"
